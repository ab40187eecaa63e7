-- ===== src/Fs/File/Read.antt =====
-- The loop of file_read_write where it reads inside the blocks of a file.
use ox.Base.{
  ℕ, zero, suc, ◌+◌, ◌-◌, ◌/◌, ◌%◌, ◌^◌, ◌≤◌, ◌<◌, ◌≡◌, refl, sym, ap, ◌∙◌, inl, inr, true, false,
  ◌&&◌, ◌==◌, if◌then◌else◌, ltb, leb, update, arith, Bool-cases,
}
use ox.Fs.Inode.{block_size}
use ox.Fs.File.{FileStore, Transfer, ok, Run, ◌>>=◌}
use ox.Fs.File.Loop.{move_byte, next_round, round, transfer}
use ox.Fs.File.Layout.{FileLayout, IsLaid, IsAt, IsAt-moved, file_byte}
use ox.Fs.File.Store.{IsFileStore}
use ox.Fs.File.Round.{
  flushed, after_flush, after_flush-held, at_next, at_next-IsAt, next_round_full,
}

-- The state before the byte at p: the block of p is at hand.
pub record Reading {C : Type 0} (io : FileStore C) (d : ℕ → ℕ → ℕ) (l : FileLayout) (p : ℕ)
    (r : Run) (x : Transfer C) : Type 0 where
  pub laid : IsLaid io.parse_map d l
  pub at : IsAt l (p / block_size) r
  pub byte_at : r.byte ≡ p % block_size
  pub held : r.dptr ≡ d (l.blocks (p / block_size))
  pub clean : r.write_flag ≡ false
  pub counted : x.bytes_processed ≡ r.i

-- A buffer with the bytes of f from p on in the places from i to m.
abbrev pub got : (ℕ → ℕ) → (ℕ → ℕ) → ℕ → ℕ → ℕ → ℕ → ℕ
got f old i p m j = if leb i j && ltb j m then f (p + (j - i)) else old j

got_more :
    (f old : ℕ → ℕ) (i i' p n m j : ℕ)
    → m ≡ i + suc n
    → i' ≡ i + 1
    → got f (update old i (f p)) i' (suc p) m j ≡ got f old i p m j
got_more f old i i' p n m j count up = elim (Bool-cases (j == i)) [
  | inl e ↦ let first : p + (j - i) ≡ p = ground arith in ground (arith, ap f first, count, up)
  | inr e ↦ elim (Bool-cases (leb i' j)) [
    | inl after ↦
        let index : suc p + (j - i') ≡ p + (j - i) = ground (arith, up) in
        ground (arith, ap f index, up)
    | inr before ↦ ground (arith, up)
  ]
]

pub got_zero :
    (f old : ℕ → ℕ) (p m j : ℕ) → got f old 0 p m j ≡ (if ltb j m then f (p + j) else old j)
got_zero f old p m j = let e : p + (j - 0) ≡ p + j = omega arith in ground (arith, ap f e)

abbrev pub read_byte : {C : Type 0} → Transfer C → C → ℕ → ℕ → Transfer C
read_byte x c i v = record x { cache = c; buffer = update x.buffer i v; bytes_processed = i + 1 }

module _ {C : Type 0} {io : FileStore C} {disk : C → ℕ → ℕ → ℕ → ℕ} (is : IsFileStore io disk) where
  module _ {l : FileLayout} (dev : ℕ) where
    move_byte_read :
        (p : ℕ) (r : Run) (x : Transfer C)
        → Reading io (disk x.cache dev) l p r x
        → r.i < x.inode.size
        → r.i + 1 < 2 ^ 32
        → move_byte io true r x
          ≡ ok
              (record r { i = r.i + 1; byte = suc p % block_size })
              (read_byte x x.cache r.i (file_byte l (disk x.cache dev) p))
    unfolding move_byte
    move_byte_read p r x now inside small =
        let past : leb x.inode.size x.bytes_processed ≡ false = ground (arith, now.counted) in
        let i : (r.i + 1) % 2 ^ 32 ≡ r.i + 1 = omega arith in
        let b : (r.byte + 1) % block_size ≡ suc p % block_size = omega (arith, now.byte_at) in
        let v : r.dptr r.byte ≡ file_byte l (disk x.cache dev) p =
          ap r.dptr now.byte_at ∙ ap (λ (f : ℕ → ℕ). f (p % block_size)) now.held in
        rw (past, i, b, v) refl

    round_read :
        (p : ℕ) (r : Run) (x : Transfer C)
        → Reading io (disk x.cache dev) l p r x
        → r.i < x.inode.size
        → r.i + 1 < 2 ^ 32
        → suc p / block_size ≤ l.last
        → (c : C) × (s : Run) × (round io true dev r x
            ≡ ok s (read_byte x c r.i (file_byte l (disk x.cache dev) p)))
          × (disk c dev ≡ disk x.cache dev)
          × Reading io
              (disk x.cache dev)
              l
              (suc p)
              s
              (read_byte x c r.i (file_byte l (disk x.cache dev) p))
          × (s.i ≡ r.i + 1)
    unfolding round next_round
    round_read p r x now inside small room =
        let d = disk x.cache dev in
        let moved : Run = record r { i = r.i + 1; byte = suc p % block_size } in
        let y : Transfer C = read_byte x x.cache r.i (file_byte l d p) in
        let at = IsAt-moved now.at (r.i + 1) (suc p % block_size) r.dptr r.write_flag in
        let move = move_byte_read p r x now inside small in
        elim (Bool-cases (suc p % block_size == 0)) [
          | inr e ↦
              let same : suc p / block_size ≡ p / block_size = ground arith in
              (
                x.cache,
                moved,
                rw (move, ◌>>=◌, e) refl,
                refl,
                record {
                  laid = now.laid;
                  at = rw same at;
                  byte_at = refl;
                  held = rw same now.held;
                  clean = now.clean;
                  counted = refl;
                },
                refl,
              )
          | inl e ↦
              let up : suc p / block_size ≡ suc (p / block_size) = ground arith in
              let full = flushed true moved y in
              let same : after_flush full moved d ≡ d =
                after_flush-held full moved d (now.held ∙ ap d (sym now.at.start_at)) in
              let (c, done, kept) =
                next_round_full is {l = l} dev (p / block_size) true moved y (rw same now.laid)
                  (rw (← up) room) at e in
              (
                c,
                at_next l (suc (p / block_size)) full (after_flush full moved d) moved,
                rw (move, ◌>>=◌) done,
                kept ∙ same,
                record {
                  laid = now.laid;
                  at =
                      rw up (
                        at_next-IsAt l (suc (p / block_size)) full (after_flush full moved d)
                          moved);
                  byte_at = refl;
                  held = rw (up, same) refl;
                  clean = ground (arith, now.clean);
                  counted = refl;
                },
                refl,
              )
        ]

    -- n bytes from p on.
    pub transfer_read :
        (n p m q : ℕ) (r : Run) (x : Transfer C)
        → m ≡ r.i + n
        → q ≡ p + n
        → Reading io (disk x.cache dev) l p r x
        → m ≤ x.inode.size
        → m < 2 ^ 32
        → q / block_size ≤ l.last
        → (c : C) × (b : ℕ → ℕ) × (s : Run) × (transfer io true dev n r x
            ≡ ok s (record x { cache = c; buffer = b; bytes_processed = m }))
          × (disk c dev ≡ disk x.cache dev)
          × Reading io
              (disk x.cache dev)
              l
              q
              s
              (record x { cache = c; buffer = b; bytes_processed = m })
          × ((j : ℕ)
              → b j ≡ (
                  if leb r.i j && ltb j m
                  then file_byte l (disk x.cache dev) (p + (j - r.i))
                  else x.buffer j))
    unfolding transfer
    transfer_read zero p m q r x count end now inside small room =
        let m' : m ≡ x.bytes_processed = omega (arith, count, now.counted) in
        let q' : q ≡ p = omega (arith, end) in
        (
          x.cache,
          x.buffer,
          r,
          rw m' refl,
          refl,
          record {
            laid = now.laid;
            at = rw q' now.at;
            byte_at = rw q' now.byte_at;
            held = rw q' now.held;
            clean = now.clean;
            counted = m' ∙ now.counted;
          },
          λ j. ground (arith, count),
        )
    transfer_read (suc n) p m q r x count end now inside small room =
        let (c, s, done, kept, now', i) =
          round_read p r x now (omega (arith, count)) (omega (arith, count)) (omega (arith, end)) in
        let d = disk x.cache dev in
        let (c', b, s', done', kept', last, bytes) =
          transfer_read n (suc p) m q s (read_byte x c r.i (file_byte l d p))
            (omega (arith, i, count)) (omega (arith, end)) (rw kept now') inside small room in
        (
          c',
          b,
          s',
          rw (done, ◌>>=◌) done',
          kept' ∙ kept,
          rw (← kept) last,
          λ j.
              bytes j
              ∙ (ap
                    (λ (e : ℕ → ℕ → ℕ).
                      got (file_byte l e) (update x.buffer r.i (file_byte l d p)) s.i (suc p) m j)
                    kept
                  ∙ got_more (file_byte l d) x.buffer r.i s.i p n m j count i),
        )
