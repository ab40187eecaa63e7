-- ===== src/Kernel/Queue.antt =====
-- kernel/process_queue.c: the rings of processes over the pointers of a store, 0 for NULL. The checks
-- of include/ox/process_queue.h are empty in the default build. `none` is a panic.
pub mod Ring
pub mod Tail
pub mod Front
pub mod Links
pub mod Remove
mod Tests
use ox.Base.{
  ℕ, ◌+◌, ◌-◌, ◌^◌, ◌%◌, Bool, true, false, ◌&&◌, not, ◌==◌, Option, none, some, if◌then◌else◌,
  update, inc32, dec32,
}

pub record Store : Type 0 where
  pub next : ℕ → ℕ
  pub prev : ℕ → ℕ
  pub priority : ℕ → ℕ
  pub tab : ℕ → ℕ
  pub size : ℕ → ℕ

abbrev pub set_size : Store → ℕ → ℕ → Store
set_size s p n = record s { size = update s.size p n }

-- The four writes that put a process before the head, in their order.
pub link_tail : Store → ℕ → ℕ → Store
link_tail s q p =
    let head = s.tab p in
    let s1 = record s { next = update s.next q head } in
    let s2 = record s1 { prev = update s1.prev q (s1.prev head) } in
    let s3 = record s2 { next = update s2.next (s2.prev head) q } in
    record s3 { prev = update s3.prev head q }

pub queue_insert : ℕ → ℕ → Store → Store
queue_insert proc_q proc s =
    let p = s.priority proc_q in
    let t = link_tail (record s { priority = update s.priority proc p }) proc p in
    set_size t p (inc32 (t.size p))

-- The first process of a queue.
abbrev pub make_single : Store → ℕ → ℕ → Store
make_single s q p = record s {
  next = update s.next q q;
  prev = update s.prev q q;
  tab = update s.tab p q;
  size = update s.size p (inc32 (s.size p));
}

pub queue_insert_p : ℕ → ℕ → Store → Option Store
queue_insert_p q p s0 =
    let s = record s0 { priority = update s0.priority q p } in
    if (s.tab p == 0) && (s.size p == 0)
    then some (make_single s q p)
    else if s.tab p == 0
    then none
    else (let t = link_tail s q p in some (set_size t p (inc32 (t.size p))))

-- The only process of a queue is taken off.
abbrev pub clear_single : Store → ℕ → ℕ → Store
clear_single s q p = record s {
  next = update s.next q 0;
  prev = update s.prev q 0;
  tab = update s.tab p 0;
  size = update s.size p (dec32 (s.size p));
}

-- The process that is returned is the argument; what is taken off is the head of its queue.
pub queue_read_front : ℕ → Store → Option Store
queue_read_front q s =
    let p = s.priority q in
    let alone = (s.next q == q) && (s.prev q == q) in
    if alone && (s.size p == 1)
    then some (clear_single s q p)
    else if alone
    then none
    else (let head = s.tab p in
        let s1 = record s { next = update s.next (s.prev head) (s.next head) } in
        let s2 = record s1 { prev = update s1.prev (s1.next head) (s1.prev head) } in
        let s3 = record s2 { tab = update s2.tab p (s2.next head) } in
        some (record s3 {
          next = update s3.next q 0;
          prev = update s3.prev q 0;
          size = update s3.size p (dec32 (s3.size p));
        }))

pub queue_remove : ℕ → Store → Option Store
queue_remove q s =
    let p = s.priority q in
    let alone = (s.next q == q) && (s.prev q == q) in
    if (s.size p == 0) && (s.tab p == 0)
    then some s
    else if alone && (s.size p == 1)
    then some (clear_single s q p)
    else if alone
    then none
    else (let tmp = s.tab p in
        let s1 = if tmp == q then record s { tab = update s.tab p (s.next q) } else s in
        let s2 =
          if s1.prev tmp == q
          then record s1 { prev = update s1.prev (s1.tab p) (s1.prev (s1.prev q)) }
          else s1 in
        let s3 = record s2 { next = update s2.next (s2.prev q) (s2.next q) } in
        let s4 = record s3 { prev = update s3.prev (s3.next q) (s3.prev q) } in
        some (record s4 {
          next = update s4.next q 0;
          prev = update s4.prev q 0;
          size = update s4.size p (dec32 (s4.size p));
        }))

pub queue_size : ℕ → Store → ℕ
queue_size q s = s.size (s.priority q)

pub queue_increment_size : ℕ → Store → Store
queue_increment_size p s = set_size s p (inc32 (s.size p))

pub queue_decrement_size : ℕ → Store → Store
queue_decrement_size p s = set_size s p (dec32 (s.size p))
