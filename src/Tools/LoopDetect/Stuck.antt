-- ===== src/Tools/LoopDetect/Stuck.antt =====
-- When the detector of tools/loopdetect.go reports a loop.
use squad.Base.{
  take-append-drop, length-drop, subst, ℕ, zero, suc, take, refl, sym, ◌+◌, ◌-◌, ◌≤◌, ◌<◌, String,
  List, [], ◌∷◌, ◌++◌, ◌≡◌, ap, ◌∙◌, ◌↔◌, inl, inr, true, length, drop, ltb, leb, if◌then◌else◌,
  Bool-cases, length-append, drop-append, arith,
}
use squad.Base.Text.{◌==◌, eq_iff, eq_refl}
use squad.Base.Count.{count, count-append}
use squad.Tools.LoopDetect.{
  LoopDetector, Counts, loop_window_size, loop_max_repeats, repeats, window_of, stuck,
}

repeats_sound :
    (counts : Counts) (w : List String)
    → repeats counts w ≡ true
    → (sig : String) × (loop_max_repeats ≤ counts sig + count sig w)
unfolding repeats count
repeats_sound counts [] h = absurd (cc)
repeats_sound counts (s ∷ w) h = elim (Bool-cases (leb loop_max_repeats (counts s + 1))) [
  | inl e ↦ (s, ground (arith, eq_refl s))
  | inr e ↦
      let (sig, le) =
        repeats_sound (λ k. if s == k then counts s + 1 else counts k) w (rw e at h) in
      (sig, ground (arith, eq_iff s sig))
]

repeats_complete :
    (counts : Counts) (w : List String) (sig : String)
    → ((k : String) → counts k < loop_max_repeats)
    → loop_max_repeats ≤ counts sig + count sig w
    → repeats counts w ≡ true
unfolding repeats count
repeats_complete counts [] sig low le = absurd (omega (arith, low sig))
repeats_complete counts (s ∷ w) sig low le =
    elim (Bool-cases (leb loop_max_repeats (counts s + 1))) [
      | inl e ↦ rw e
      | inr e ↦ rw e (
          repeats_complete (λ k. if s == k then counts s + 1 else counts k) w sig
            (λ k. ground (arith, low k)) (ground (arith, eq_iff s sig)))
    ]

-- A signature that stands so often among the last so many.
abbrev pub IsRepeated : List String → ℕ → ℕ → Type 0
IsRepeated sigs most times =
    (sig : String) × (older recent : List String) × (sigs ≡ older ++ recent)
    × (length recent ≤ most)
    × (times ≤ count sig recent)

window_of-suffix :
    (sigs : List String)
    → (older : List String) × (sigs ≡ older ++ window_of sigs)
      × (length (window_of sigs) ≤ loop_window_size)
unfolding window_of
window_of-suffix sigs = (
  take (start sigs) sigs,
  sym (take-append-drop (start sigs) sigs),
  subst (λ n. n ≤ loop_window_size) (sym (length-drop (start sigs) sigs)) (few (length sigs)),
)
  where
    few :
        (n : ℕ)
        → n - (if ltb loop_window_size n then n - loop_window_size else 0) ≤ loop_window_size
    few n = ground arith

    start : List String → ℕ
    start sigs = if ltb loop_window_size (length sigs) then length sigs - loop_window_size else 0

drop_within :
    (k : ℕ) (older recent : List String)
    → k ≤ length older
    → drop k (older ++ recent) ≡ drop k older ++ recent
drop_within zero older recent le = refl
drop_within (suc k) [] recent le = absurd (omega arith)
drop_within (suc k) (o ∷ older) recent le = drop_within k older recent (omega arith)

count-window_of :
    (sig : String) (older recent : List String)
    → length recent ≤ loop_window_size
    → count sig recent ≤ count sig (window_of (older ++ recent))
unfolding window_of
count-window_of sig older recent le =
    let all = length-append older recent in
    rw
      (drop_within
        (if ltb loop_window_size (length (older ++ recent))
          then length (older ++ recent) - loop_window_size
          else 0)
        older recent (ground (arith, all)))
      (omega (arith, count-append sig (drop _ older) recent))

-- The detector reports a loop exactly if some signature stands three times or more among the last
-- ten.
pub stuck_iff : (ld : LoopDetector) → (stuck ld ≡ true) ↔ IsRepeated ld.signatures 10 3
unfolding stuck
stuck_iff ld = (
  λ h.
      let (sig, le) = repeats_sound (λ k. 0) (window_of ld.signatures) h in
      let (older, all, short) = window_of-suffix ld.signatures in
      (sig, older, window_of ld.signatures, all, short, omega (arith, le)),
  λ (sig, older, recent, all, short, often).
      let more = count-window_of sig older recent short in
      repeats_complete (λ k. 0) (window_of ld.signatures) sig (λ k. omega arith)
        (rw all (omega (arith, more, often))),
)

-- The window holds the last ten signatures, or all of them.
pub window_of_append :
    (older recent : List String)
    → length recent ≡ loop_window_size
    → window_of (older ++ recent) ≡ recent
unfolding window_of
window_of_append older recent e =
    ap (λ k. drop k (older ++ recent)) start ∙ drop-append older recent
  where
    start :
        (if ltb loop_window_size (length (older ++ recent))
          then length (older ++ recent) - loop_window_size
          else 0)
        ≡ length older
    start = ground (arith, length-append older recent)
