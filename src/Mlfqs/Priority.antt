-- ===== src/Mlfqs/Priority.antt =====
-- The priorities of the multi-level feedback queue: their range, and how they fall.
use cs140_w.Prelude.{
  ℕ, ◌≤◌, ◌≡◌, refl, ap, ◌==◌, Bool, true, false, if◌then◌else◌, arith, List, [], ◌∷◌, ℕ_discrete,
}
use cs140_w.Prelude.Int.{ℤ, pos, negsuc, ◌-ℤ◌, ◌*ℤ◌, ◌≤ℤ◌, int_laws}
use cs140_w.KernelList.Removal.{occurrences}
use cs140_w.FixedPoint.{one, quotient, quotient_ℤ, int_to_fp, fp_to_int_zero, divide_fp_int}
use cs140_w.FixedPoint.Rounding.{quotient_mono}
use cs140_w.Mlfqs.{
  Usage, Mlfqs, pri_min, pri_max, clamp, priority_of, update_priority, update, foreach, second_mark,
  mlfqs_update, update_load_avg, update_recent_cpu,
}

clamp_range : (p : ℤ) → (pri_min ≤ℤ clamp p) × (clamp p ≤ℤ pri_max)
clamp_range p = ground arith

clamp_mono : (p q : ℤ) → p ≤ℤ q → clamp p ≤ℤ clamp q
clamp_mono p q h = ground arith

-- The priority before it is cut to the range.
abbrev raw : ℤ → ℤ → ℤ
raw recent_cpu nice =
    int_to_fp pri_max -ℤ divide_fp_int recent_cpu (pos 4) -ℤ int_to_fp (nice *ℤ pos 2)

-- thread_update_priority gives a priority from PRI_MIN to PRI_MAX, whatever the thread used.
pub update_priority-range :
    (t : Usage)
    → (pri_min ≤ℤ (update_priority t).priority) × ((update_priority t).priority ≤ℤ pri_max)
unfolding update_priority priority_of
update_priority-range t = clamp_range (fp_to_int_zero (raw t.recent_cpu t.nice))

double_mono : (m n : ℤ) → m ≤ℤ n → int_to_fp (m *ℤ pos 2) ≤ℤ int_to_fp (n *ℤ pos 2)
unfolding int_to_fp ◌*ℤ◌
double_mono (pos m) (pos n) h = ground arith
double_mono (pos m) (negsuc n) h = absurd (omega arith)
double_mono (negsuc m) (pos n) h = ground arith
double_mono (negsuc m) (negsuc n) h = ground arith

quarter_mono : (a b : ℤ) → a ≤ℤ b → divide_fp_int a (pos 4) ≤ℤ divide_fp_int b (pos 4)
unfolding divide_fp_int quotient_ℤ
quarter_mono a b h = quotient_mono a b 4 h

raw_antitone : (r r' n n' : ℤ) → r ≤ℤ r' → n ≤ℤ n' → raw r' n' ≤ℤ raw r n
raw_antitone r r' n n' h k = omega (int_laws, quarter_mono r r' h, double_mono n n' k)

-- A thread that used the processor at least as much, and is at least as nice, gets no higher
-- priority.
pub priority_of-antitone :
    (r r' n n' : ℤ) → r ≤ℤ r' → n ≤ℤ n' → priority_of r' n' ≤ℤ priority_of r n
unfolding priority_of fp_to_int_zero
priority_of-antitone r r' n n' h k =
    clamp_mono (quotient (raw r' n') one) (quotient (raw r n) one)
      (quotient_mono (raw r' n') (raw r n) one (raw_antitone r r' n n' h k))

-- An action on every thread of a list reaches each thread once.
foreach-once :
    (ts : List ℕ) (f : Usage → Usage) (threads : ℕ → Usage) (t : ℕ)
    → occurrences t ts ≤ 1
    → foreach ts f threads t ≡ (if occurrences t ts == 0 then threads t else f (threads t))
unfolding foreach
foreach-once [] f threads t h = refl
foreach-once (x ∷ xs) f threads t h = elim (ℕ_discrete x t) [
  | yes e ↦ ground (arith, foreach-once xs f (update threads x (f (threads x))) t, ap threads e)
  | no ne ↦ ground (arith, foreach-once xs f (update threads x (f (threads x))) t)
]

-- At a second mark every thread that stands in the list of all threads once gets its use of the
-- processor updated by the new load average, and then its priority from that; at another tick its
-- priority alone is updated. A thread that is not in the list stays as it is.
pub mlfqs_update-threads :
    (flag : Bool) (m : Mlfqs) (t : ℕ)
    → occurrences t m.all_list ≤ 1
    → (mlfqs_update flag m).threads t ≡ (
        if occurrences t m.all_list == 0
        then m.threads t
        else update_priority (
            if flag
            then update_recent_cpu (update_load_avg m).load_avg (m.threads t)
            else m.threads t))
unfolding mlfqs_update update_load_avg
mlfqs_update-threads true m t h = ground (
  arith,
  foreach-once m.all_list update_priority (second_mark m).threads t h,
  foreach-once m.all_list (update_recent_cpu (update_load_avg m).load_avg) m.threads t h,
)
mlfqs_update-threads false m t h =
    ground (arith, foreach-once m.all_list update_priority m.threads t h)
