-- ===== src/Scheduler/Queue/Order.antt =====
-- ise_exporter/scheduler.py: the order of the keys of the lane queue.
use ise_exporter_v.Base.{ℕ, ◌≡◌, true, false, Bool, ◌&&◌, ◌||◌, ltb, ◌==◌, ◌+◌, arith}
use ise_exporter_v.Base.Int.{
  ℤ, pos, pos_part, neg_part, ltb_ℤ, eqb_ℤ, ◌+ℤ◌, ◌-ℤ◌, ◌≤ℤ◌, scale, +ℤ_parts, int_laws,
}
use ise_exporter_v.Base.Float.{seconds}
use ise_exporter_v.Scheduler.Queue.{Item, aging_seconds, key_lt, effective_priority}

-- The time at which an item of priority 0 would have the same effective priority.
unfoldable pub rank : Item → ℤ
rank e = pos e.queued_at +ℤ scale (seconds aging_seconds) e.priority

-- Two levels of a lexicographic comparison at a time.
abbrev lex : Bool → Bool → Bool → Bool
lex lt eq tail = lt || eq && tail

lex_trans_ℤ :
    (a b e : ℤ) (x y z : Bool)
    → (y ≡ true → x ≡ false → z ≡ false)
    → lex (ltb_ℤ e b) (eqb_ℤ e b) y ≡ true
    → lex (ltb_ℤ a b) (eqb_ℤ a b) x ≡ false
    → lex (ltb_ℤ a e) (eqb_ℤ a e) z ≡ false
lex_trans_ℤ a b e x y z t h k = ground arith

lex_trans :
    (a b e : ℕ) (x y z : Bool)
    → (y ≡ true → x ≡ false → z ≡ false)
    → lex (ltb e b) (e == b) y ≡ true
    → lex (ltb a b) (a == b) x ≡ false
    → lex (ltb a e) (a == e) z ≡ false
lex_trans a b e x y z t h k = ground arith

last_trans : (a b e : ℕ) → ltb e b ≡ true → ltb a b ≡ false → ltb a e ≡ false
last_trans a b e h k = ground arith

-- What comes before `b` is no later than all that `b` is no later than.
pub key_lt_trans :
    (now : ℕ) (a b e : Item)
    → key_lt now e b ≡ true
    → key_lt now a b ≡ false
    → key_lt now a e ≡ false
unfolding key_lt
key_lt_trans now a b e =
    lex_trans_ℤ (effective_priority now a) (effective_priority now b) (effective_priority now e) _ _
      _
      (lex_trans_ℤ a.priority b.priority e.priority _ _ _ (
        lex_trans a.queued_at b.queued_at e.queued_at _ _ _
          (last_trans a.sequence b.sequence e.sequence)))

pub key_lt_irrefl : (now : ℕ) (a : Item) → key_lt now a a ≡ false
unfolding key_lt
key_lt_irrefl now a = ground arith

lex_le : (a b : ℤ) (y : Bool) → lex (ltb_ℤ a b) (eqb_ℤ a b) y ≡ false → b ≤ℤ a
lex_le a b y h = ground arith

key_lt-effective :
    (now : ℕ) (a b : Item)
    → key_lt now a b ≡ false
    → effective_priority now b ≤ℤ effective_priority now a
unfolding key_lt
key_lt-effective now a b h = lex_le (effective_priority now a) (effective_priority now b) _ h

effective_parts :
    (p : ℤ) (now at : ℕ)
    → pos_part (p -ℤ (pos now -ℤ pos at)) + neg_part p + now
      ≡ neg_part (p -ℤ (pos now -ℤ pos at)) + pos_part p + at
effective_parts p now at = omega int_laws

rank-effective :
    (now : ℕ) (e : Item)
    → pos_part (effective_priority now e) + neg_part (rank e) + now
      ≡ neg_part (effective_priority now e) + pos_part (rank e)
unfolding rank effective_priority
rank-effective now e = omega (
  arith,
  effective_parts (scale (seconds aging_seconds) e.priority) now e.queued_at,
  +ℤ_parts (pos e.queued_at) (scale (seconds aging_seconds) e.priority),
)

-- The order of the keys does not contradict that of the ranks, which do not move with time.
pub key_lt-rank : (now : ℕ) (a b : Item) → key_lt now a b ≡ false → rank b ≤ℤ rank a
key_lt-rank now a b h =
    omega (arith, key_lt-effective now a b h, rank-effective now a, rank-effective now b)
