-- ===== src/Shard/Files/Keys.antt =====
-- The map of groupByPackage in runner/shard.go, after one more file.
use squad.Base.{
  ◌≡◌, refl, sym, subst, ap, ◌∙◌, ◌↔◌, ◌⊎◌, inl, inr, List, [], ◌∷◌, ◌++◌, Bool, true, false, ◌||◌,
  Bool-cases, if◌then◌else◌,
}
use squad.Base.All.{Distinct-snoc, In, Distinct, In-append, In-append_left, In-append_right}
use squad.Base.Chars.{Chars, same_text, same_text_iff}
use squad.Shard.Files.{group_at, append_to, has_group}

one_key : (j k d : Chars) → same_text j k ≡ true → same_text j d ≡ same_text k d
one_key j k d p = ap (λ x. same_text x d) ((same_text_iff j k).0 p)

two_keys : (j k d : Chars) → same_text j k ≡ false → same_text j d ≡ true → same_text k d ≡ false
two_keys j k d n q = elim (Bool-cases (same_text k d)) [
  | inl r ↦
      let e : j ≡ k = (same_text_iff j d).0 q ∙ sym ((same_text_iff k d).0 r) in
      let both = (same_text_iff j k).1 e in absurd (cc)
  | inr m ↦ m
]

pub group_at-append_to :
    (d k f : Chars) (gs : List (Chars × List Chars))
    → group_at d (append_to k f gs)
      ≡ (if same_text k d then group_at d gs ++ f ∷ [] else group_at d gs)
unfolding group_at append_to
group_at-append_to d k f [] = elim (Bool-cases (same_text k d)) [
  | inl p ↦ rw p refl
  | inr n ↦ rw n refl
]
group_at-append_to d k f ((j, fs) ∷ gs) = elim (Bool-cases (same_text j k)) [
  | inl p ↦ elim (Bool-cases (same_text k d)) [
    | inl q ↦ rw (p, q, one_key j k d p, q) refl
    | inr q ↦ rw (p, q, one_key j k d p, q) refl
  ]
  | inr n ↦ elim (Bool-cases (same_text j d)) [
    | inl q ↦ rw (n, q, two_keys j k d n q) refl
    | inr q ↦ rw (n, q) (group_at-append_to d k f gs)
  ]
]

pub has_group-append_to :
    (d k f : Chars) (gs : List (Chars × List Chars))
    → has_group d (append_to k f gs) ≡ (same_text k d || has_group d gs)
unfolding has_group append_to
has_group-append_to d k f [] = refl
has_group-append_to d k f ((j, fs) ∷ gs) = elim (Bool-cases (same_text j k)) [
  | inl p ↦ elim (Bool-cases (same_text k d)) [
    | inl q ↦ rw (p, q, one_key j k d p, q) refl
    | inr q ↦ rw (p, q, one_key j k d p, q) refl
  ]
  | inr n ↦ elim (Bool-cases (same_text j d)) [
    | inl q ↦ rw (n, q, two_keys j k d n q) refl
    | inr q ↦ rw (n, q) (has_group-append_to d k f gs)
  ]
]

-- The keys after one more file.
unfoldable pub with_dir : Bool → List Chars → Chars → List Chars
with_dir b ds k = if b then ds else ds ++ k ∷ []

pub with_dir_iff :
    (b : Bool) (ds : List Chars) (k d : Chars)
    → (b ≡ true) ↔ In k ds
    → In d (with_dir b ds k) ↔ (In d ds ⊎ (k ≡ d))
unfolding with_dir
with_dir_iff true ds k d h =
    (λ i. inl i, λ i. elim i [ inl j ↦ j | inr e ↦ subst (λ x. In x ds) e (h.0 refl) ])
with_dir_iff false ds k d h = (
  λ i. elim (In-append d ds (k ∷ []) i) [
    | inl j ↦ inl j
    | inr (inl e) ↦ inr e
    | inr (inr j) ↦ absurd j
  ],
  λ i. elim i [
    | inl j ↦ In-append_left d ds (k ∷ []) j
    | inr e ↦ In-append_right d ds (k ∷ []) (inl e)
  ],
)

pub with_dir-Distinct :
    (b : Bool) (ds : List Chars) (k : Chars)
    → (b ≡ true) ↔ In k ds
    → Distinct ds
    → Distinct (with_dir b ds k)
unfolding with_dir
with_dir-Distinct true ds k h d = d
with_dir-Distinct false ds k h d =
    Distinct-snoc ds k d (λ i. let e : false ≡ true = h.1 i in absurd (cc))

pub or_true : (a b : Bool) → ((a || b) ≡ true) ↔ ((b ≡ true) ⊎ (a ≡ true))
or_true true b = (λ h. inr refl, λ h. refl)
or_true false b = (λ h. inl h, λ h. elim h [ inl k ↦ k | inr k ↦ absurd (cc) ])
