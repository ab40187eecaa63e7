-- ===== src/Fs/File/Write.antt =====
-- The loop of file_read_write where it writes inside the blocks of a file.
use ox.Base.{
  ℕ, zero, suc, ◌+◌, ◌-◌, ◌/◌, ◌%◌, ◌^◌, ◌≤◌, ◌<◌, ◌≡◌, ◌≢◌, refl, sym, ap, ◌∙◌, inl, inr, true,
  false, ◌&&◌, ◌==◌, if◌then◌else◌, ltb, leb, update, arith, Bool-cases, ==_iff,
}
use ox.Fs.Inode.{block_size}
use ox.Fs.File.{FileStore, Transfer, ok, Run, ◌>>=◌}
use ox.Fs.File.Loop.{move_byte, next_round, round, transfer}
use ox.Fs.File.Layout.{
  FileLayout, IsLaid, IsLaid-update, IsAt, IsAt-moved, file_byte, file_byte-update,
}
use ox.Fs.File.Store.{IsFileStore, update_same}
use ox.Fs.File.Round.{at_next, at_next-IsAt, next_round_full}

-- What the device has once the block at hand is written.
abbrev pub shown : Run → (ℕ → ℕ → ℕ) → ℕ → ℕ → ℕ
shown r d = update d r.start r.dptr

-- The state before the byte at p: the block of p is at hand, and the device has it if the flag is not set.
pub record Writing {C : Type 0} (io : FileStore C) (d : ℕ → ℕ → ℕ) (l : FileLayout) (p : ℕ)
    (r : Run) : Type 0 where
  pub laid : IsLaid io.parse_map d l
  pub at : IsAt l (p / block_size) r
  pub byte_at : r.byte ≡ p % block_size
  pub clean : r.write_flag ≡ false → r.dptr ≡ d r.start

-- The file with the bytes of b from i on in the places from p to q.
abbrev pub put : (ℕ → ℕ) → (ℕ → ℕ) → ℕ → ℕ → ℕ → ℕ → ℕ
put b old i p q k = if leb p k && ltb k q then b (i + (k - p)) else old k

pub put_zero :
    (b old : ℕ → ℕ) (p q k : ℕ)
    → put b old 0 p q k ≡ (if leb p k && ltb k q then b (k - p) else old k)
put_zero b old p q k = let e : 0 + (k - p) ≡ k - p = omega arith in ground (arith, ap b e)

put_more :
    (b f old : ℕ → ℕ) (i i' p q k : ℕ)
    → i' ≡ i + 1
    → p < q
    → f k ≡ (if k == p then b i else old k)
    → put b f i' (suc p) q k ≡ put b old i p q k
put_more b f old i i' p q k up inside first = elim (Bool-cases (leb (suc p) k)) [
  | inl after ↦
      let index : i' + (k - suc p) ≡ i + (k - p) = ground (arith, up) in
      ground (arith, ap b index, first)
  | inr before ↦
      let index : k ≡ p → i + (k - p) ≡ i = λ e. omega arith in
      elim (Bool-cases (k == p)) [
        | inl e ↦ let same : k ≡ p = ground arith in ground (arith, ap b (index same), first)
        | inr e ↦ ground (arith, first)
      ]
]

pub update_other : (d : ℕ → ℕ → ℕ) (a b : ℕ) (t : ℕ → ℕ) → a ≢ b → update d a t b ≡ d b
update_other d a b t apart = elim (Bool-cases (b == a)) [
  | inl e ↦ absurd (apart (sym ((==_iff b a).0 e)))
  | inr e ↦ rw e refl
]

module _ {C : Type 0} {io : FileStore C} {disk : C → ℕ → ℕ → ℕ → ℕ} (is : IsFileStore io disk) where
  module _ {l : FileLayout} (dev : ℕ) where
    round_write :
        (p : ℕ) (r : Run) (x : Transfer C)
        → Writing io (disk x.cache dev) l p r
        → r.i + 1 < 2 ^ 32
        → p / block_size ≤ l.last
        → suc p / block_size ≤ l.last
        → (c : C) × (s : Run) × (round io false dev r x
            ≡ ok s (record x { cache = c; bytes_processed = r.i + 1 }))
          × Writing io (disk c dev) l (suc p) s
          × (shown s (disk c dev)
              ≡ update
                  (disk x.cache dev)
                  (l.blocks (p / block_size))
                  (update r.dptr (p % block_size) (x.buffer r.i)))
          × (s.i ≡ r.i + 1)
    unfolding round move_byte next_round
    round_write p r x now small here room =
        let d = disk x.cache dev in
        let t = update r.dptr (p % block_size) (x.buffer r.i) in
        let moved : Run = record r {
          i = r.i + 1;
          byte = suc p % block_size;
          dptr = t;
          write_flag = true;
        } in
        let y : Transfer C = record x { bytes_processed = r.i + 1 } in
        let at = IsAt-moved now.at (r.i + 1) (suc p % block_size) t true in
        let i : (r.i + 1) % 2 ^ 32 ≡ r.i + 1 = omega arith in
        let b : (r.byte + 1) % block_size ≡ suc p % block_size = omega (arith, now.byte_at) in
        elim (Bool-cases (suc p % block_size == 0)) [
          | inr e ↦
              let same : suc p / block_size ≡ p / block_size = ground arith in
              (
                x.cache,
                moved,
                rw (i, b, now.byte_at, e) refl,
                record { laid = now.laid; at = rw same at; byte_at = refl; clean = λ h. cc },
                ap (λ (k : ℕ). update d k t) now.at.start_at,
                refl,
              )
          | inl e ↦
              let up : suc p / block_size ≡ suc (p / block_size) = ground arith in
              let d' = update d r.start t in
              let laid : IsLaid io.parse_map d' l =
                rw now.at.start_at (IsLaid-update now.laid (p / block_size) t here) in
              let (c, done, kept) =
                next_round_full is {l = l} dev (p / block_size) false moved y laid (rw (← up) room)
                  at e in
              (
                c,
                at_next l (suc (p / block_size)) true d' moved,
                rw (i, b, now.byte_at) done,
                record {
                  laid = rw kept laid;
                  at = rw up (at_next-IsAt l (suc (p / block_size)) true d' moved);
                  byte_at = refl;
                  clean = λ h. rw kept refl;
                },
                rw kept (update_same d' (l.blocks (suc (p / block_size))))
                    ∙ ap (λ (k : ℕ). update d k t) now.at.start_at,
                refl,
              )
        ]

    -- n bytes from p on.
    pub transfer_write :
        (n p m q : ℕ) (r : Run) (x : Transfer C)
        → m ≡ r.i + n
        → q ≡ p + n
        → x.bytes_processed ≡ r.i
        → Writing io (disk x.cache dev) l p r
        → m < 2 ^ 32
        → q / block_size ≤ l.last
        → (c : C) × (s : Run) × (transfer io false dev n r x
            ≡ ok s (record x { cache = c; bytes_processed = m }))
          × Writing io (disk c dev) l q s
          × ((k : ℕ)
              → k / block_size ≤ l.last
              → file_byte l (shown s (disk c dev)) k
                ≡ put x.buffer (file_byte l (shown r (disk x.cache dev))) r.i p q k)
          × ((b : ℕ)
              → ((h : ℕ) → h ≤ l.last → l.blocks h ≢ b)
              → shown s (disk c dev) b ≡ shown r (disk x.cache dev) b)
    unfolding transfer
    transfer_write zero p m q r x count end counted now small room =
        let m' : m ≡ x.bytes_processed = omega (arith, count, counted) in
        let q' : q ≡ p = omega (arith, end) in
        (
          x.cache,
          r,
          rw m' refl,
          record {
            laid = now.laid;
            at = rw q' now.at;
            byte_at = rw q' now.byte_at;
            clean = now.clean;
          },
          λ k inside. ground (arith, end),
          λ b other. refl,
        )
    transfer_write (suc n) p m q r x count end counted now small room =
        let here : p / block_size ≤ l.last = omega (arith, end) in
        let (c, s, done, now', same, i) =
          round_write p r x now (omega (arith, count)) here (omega (arith, end)) in
        let d = disk x.cache dev in
        let y : Transfer C = record x { cache = c; bytes_processed = r.i + 1 } in
        let (c', s', done', last, bytes, others) =
          transfer_write n (suc p) m q s y (omega (arith, i, count)) (omega (arith, end)) (sym i)
            now' small room in
        (
          c',
          s',
          rw (done, ◌>>=◌) done',
          last,
          λ k inside.
              bytes k inside
              ∙ put_more x.buffer (file_byte l (shown s (disk c dev))) (file_byte l (shown r d)) r.i
                  s.i p q k i (omega (arith, end))
                  (ap (λ (e : ℕ → ℕ → ℕ). file_byte l e k) same
                    ∙ (file_byte-update now.laid p k (x.buffer r.i) r.dptr here inside
                        ∙ ap
                            (λ (a : ℕ).
                              if k == p then x.buffer r.i else file_byte l (update d a r.dptr) k)
                            (sym now.at.start_at))),
          λ b other.
              others b other
              ∙ (ap (λ (e : ℕ → ℕ → ℕ). e b) same
                  ∙ (update_other d (l.blocks (p / block_size)) b _ (other _ here)
                      ∙ sym (update_other d r.start b r.dptr (rw now.at.start_at (other _ here))))),
        )
