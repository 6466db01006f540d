-- ===== src/Failpoint/Spec/Overrides.antt =====
-- The overrides of a request in internal/failpoint/failpoint.go.
use fault_tolerant_payment_l.Base.{
  ℕ, ◌≡◌, refl, Text, text, text_eq, split, trim_space, cut_or_all, cut, true, Option, none, some,
  List, [], ◌∷◌, All, Bool-cases, inl, inr,
}
use fault_tolerant_payment_l.Failpoint.{Action, Actions, delete, assign}
use fault_tolerant_payment_l.Failpoint.Spec.{
  is_known, SpecError, Request, arming, disarming, refused, read_timed, unless_refused,
  read_override, override, override_cut, override_part, override_parts, in_context,
  with_request_failpoints,
}

-- the overrides name known failpoints and have no count
abbrev pub AllLasting : Actions → Type 0
AllLasting others =
    All (λ (na : Text × Action). (is_known na.0 ≡ true) × (na.1.remaining ≡ none)) others

delete-AllLasting : (n : Text) (others : Actions) → AllLasting others → AllLasting (delete n others)
unfolding delete
delete-AllLasting n [] h = h
delete-AllLasting n ((m, a) ∷ others) h = elim (Bool-cases (text_eq n m)) [
  | inl hit ↦ rw hit (delete-AllLasting n others h.1)
  | inr miss ↦ rw miss (h.0, delete-AllLasting n others h.1)
]

abbrev count_of : Request → Option ℕ
count_of (arming a) = a.remaining
count_of disarming = none
count_of (refused e) = none

unless_refused-AllLasting :
    (more : Actions → Option SpecError × Actions)
    → ((others : Actions) → AllLasting others → AllLasting (more others).1)
    → (o : Option SpecError × Actions) → AllLasting o.1
    → AllLasting (unless_refused more o).1
unfolding unless_refused
unless_refused-AllLasting more h (none, others) t = h others t
unless_refused-AllLasting more h (some e, others) t = t

module _ (parse_duration : Text → Option ℕ) where
  read_timed-lasts : (d : Option ℕ) → count_of (read_timed d) ≡ none
  unfolding read_timed
  read_timed-lasts none = refl
  read_timed-lasts (some d) = refl

  read_override-lasts : (kr : Text × Text) → count_of (read_override parse_duration kr) ≡ none
  unfolding read_override
  read_override-lasts (kind, rest) = elim (Bool-cases (text_eq kind (text "sleep"))) [
    | inl h ↦ rw h (read_timed-lasts (parse_duration rest))
    | inr h ↦ elim (Bool-cases (text_eq kind (text "error"))) [
      | inl k ↦ rw (h, k) refl
      | inr k ↦ elim (Bool-cases (text_eq kind (text "panic"))) [
        | inl l ↦ rw (h, k, l) refl
        | inr l ↦ rw (h, k, l) refl
      ]
    ]
  ]

  override-AllLasting :
      (n : Text) (q : Request) (others : Actions)
      → is_known n ≡ true
      → count_of q ≡ none
      → AllLasting others
      → AllLasting (override parse_duration n q others).1
  unfolding override assign
  override-AllLasting n (arming a) others listed lasts h =
      ((listed, lasts), delete-AllLasting n others h)
  override-AllLasting n disarming others listed lasts h = h
  override-AllLasting n (refused e) others listed lasts h = h

  override_cut-AllLasting :
      (o : Option (Text × Text)) (others : Actions)
      → AllLasting others
      → AllLasting (override_cut parse_duration o others).1
  unfolding override_cut
  override_cut-AllLasting none others h = h
  override_cut-AllLasting (some (name, spec)) others h =
      let kr = cut_or_all b':' (trim_space spec) in
      elim (Bool-cases (is_known (trim_space name))) [
        | inr unknown ↦ rw unknown h
        | inl listed ↦ rw listed (
            override-AllLasting (trim_space name) (read_override parse_duration kr) others listed
              (read_override-lasts kr) h)
      ]

  override_part-AllLasting :
      (part : Text) (others : Actions)
      → AllLasting others
      → AllLasting (override_part parse_duration part others).1
  unfolding override_part
  override_part-AllLasting [] others h = h
  override_part-AllLasting (b ∷ bs) others h = override_cut-AllLasting (cut b'=' (b ∷ bs)) others h

  override_parts-AllLasting :
      (parts : List Text) (others : Actions)
      → AllLasting others
      → AllLasting (override_parts parse_duration parts others).1
  unfolding override_parts
  override_parts-AllLasting [] others h = h
  override_parts-AllLasting (part ∷ parts) others h =
      unless_refused-AllLasting (override_parts parse_duration parts)
        (override_parts-AllLasting parts) (override_part parse_duration (trim_space part) others)
        (override_part-AllLasting (trim_space part) others h)

  in_context-AllLasting :
      (outer : Actions) (o : Option SpecError × Actions)
      → AllLasting outer
      → AllLasting o.1
      → AllLasting (in_context parse_duration outer o).1
  in_context-AllLasting outer (some e, others) h k = h
  in_context-AllLasting outer (none, []) h k = h
  in_context-AllLasting outer (none, x ∷ others) h k = k

  -- The overrides that any spec gives a request name known failpoints and have no count, even if the spec has one, as
  -- long as those of the outer context do.
  pub with_request_failpoints-AllLasting :
      (spec : Text) (outer : Actions)
      → AllLasting outer
      → AllLasting (with_request_failpoints parse_duration spec outer).1
  unfolding with_request_failpoints
  with_request_failpoints-AllLasting spec outer h =
      in_context-AllLasting outer (override_parts parse_duration (split b',' spec) []) h
        (override_parts-AllLasting (split b',' spec) [] _)
