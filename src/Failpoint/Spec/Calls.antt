-- ===== src/Failpoint/Spec/Calls.antt =====
-- The calls on a registry of internal/failpoint/failpoint.go, in any order.
use fault_tolerant_payment_l.Base.{
  ℕ, zero, suc, ◌≡◌, refl, sym, subst, ◌∙◌, ap, Text, text_eq, text_eq_iff, split, trim_space,
  cut_or_all, cut, Bool, true, false, Option, none, some, List, [], ◌∷◌, All, Bool-cases, inl, inr,
  if◌then◌else◌, Option-cases,
}
use fault_tolerant_payment_l.Failpoint.{
  Action, Actions, Registry, lookup, delete, assign, disarm, reset, new_registry, count_use, eval,
}
use fault_tolerant_payment_l.Failpoint.Spec.{
  is_known, SpecError, Request, arming, disarming, refused, read_request, obey, unless_refused, arm,
  arm_cut, parse_part, parse_parts, parse,
}
use fault_tolerant_payment_l.Failpoint.Spec.Arming.{arm-obey}

abbrev pub AllKnown : Actions → Type 0
AllKnown others = All (λ (na : Text × Action). is_known na.0 ≡ true) others

-- a registry holds known failpoints only, and none unless it is enabled
pub record Tidy (r : Registry) : Type 0 where
  pub known : AllKnown r.actions
  pub inert : r.enabled ≡ false → r.actions ≡ []

delete-AllKnown : (n : Text) (others : Actions) → AllKnown others → AllKnown (delete n others)
unfolding delete
delete-AllKnown n [] h = h
delete-AllKnown n ((m, a) ∷ others) h = elim (Bool-cases (text_eq n m)) [
  | inl hit ↦ rw hit (delete-AllKnown n others h.1)
  | inr miss ↦ rw miss (h.0, delete-AllKnown n others h.1)
]

assign-AllKnown :
    (n : Text) (a : Action) (others : Actions)
    → is_known n ≡ true
    → AllKnown others
    → AllKnown (assign n a others)
unfolding assign
assign-AllKnown n a others listed h = (listed, delete-AllKnown n others h)

found-known :
    (n : Text) (a : Action) (others : Actions)
    → AllKnown others
    → lookup n others ≡ some a
    → is_known n ≡ true
unfolding lookup
found-known n a [] h found = cc
found-known n a ((m, b) ∷ others) h found = elim (Bool-cases (text_eq n m)) [
  | inl hit ↦ ap is_known ((text_eq_iff n m).0 hit) ∙ h.0
  | inr miss ↦
      found-known n a others h.1
        (ap (λ t. if t then some b else lookup n others) (sym miss) ∙ found)
]

delete-Tidy : (n : Text) (r : Registry) → Tidy r → Tidy (record r { actions = delete n r.actions })
unfolding delete
delete-Tidy n r t = record {
  known = delete-AllKnown n r.actions t.known;
  inert = λ off. ap (delete n) (t.inert off);
}

assign-Tidy :
    (n : Text) (a : Action) (r : Registry)
    → r.enabled ≡ true
    → is_known n ≡ true
    → Tidy r
    → Tidy (record r { actions = assign n a r.actions })
assign-Tidy n a r on listed t = record {
  known = assign-AllKnown n a r.actions listed t.known;
  inert = λ off. cc;
}

unless_refused-Tidy :
    (others : Registry → Option SpecError × Registry)
    → ((r : Registry) → Tidy r → Tidy (others r).1)
    → (o : Option SpecError × Registry) → Tidy o.1
    → Tidy (unless_refused others o).1
unfolding unless_refused
unless_refused-Tidy others h (none, r) t = h r t
unless_refused-Tidy others h (some e, r) t = t

module _ (parse_duration : Text → Option ℕ) where
  obey-Tidy :
      (n : Text) (q : Request) (r : Registry)
      → r.enabled ≡ true
      → is_known n ≡ true
      → Tidy r
      → Tidy (obey parse_duration n q r).1
  unfolding obey disarm
  obey-Tidy n (arming a) r on listed t = assign-Tidy n a r on listed t
  obey-Tidy n disarming r on listed t = delete-Tidy n r t
  obey-Tidy n (refused e) r on listed t = t

  arm-Tidy : (n spec : Text) (r : Registry) → Tidy r → Tidy (arm parse_duration n spec r).1
  unfolding arm
  arm-Tidy n spec r t = elim (Bool-cases r.enabled) [
    | inr off ↦ subst Tidy (rw off refl) t
    | inl on ↦ elim (Bool-cases (is_known n)) [
      | inr unknown ↦ subst Tidy (rw (on, unknown) refl) t
      | inl listed ↦
          subst (λ o. Tidy o.1) (sym (arm-obey parse_duration n spec r on listed))
            (obey-Tidy n (read_request parse_duration (cut_or_all b':' spec)) r on listed t)
    ]
  ]

  arm_cut-Tidy :
      (o : Option (Text × Text)) (r : Registry) → Tidy r → Tidy (arm_cut parse_duration o r).1
  unfolding arm_cut
  arm_cut-Tidy none r t = t
  arm_cut-Tidy (some (n, spec)) r t = arm-Tidy (trim_space n) (trim_space spec) r t

  parse_part-Tidy :
      (part : Text) (r : Registry) → Tidy r → Tidy (parse_part parse_duration part r).1
  unfolding parse_part
  parse_part-Tidy [] r t = t
  parse_part-Tidy (b ∷ bs) r t = arm_cut-Tidy (cut b'=' (b ∷ bs)) r t

  parse_parts-Tidy :
      (parts : List Text) (r : Registry) → Tidy r → Tidy (parse_parts parse_duration parts r).1
  unfolding parse_parts unless_refused
  parse_parts-Tidy [] r t = t
  parse_parts-Tidy (part ∷ parts) r t =
      unless_refused-Tidy (parse_parts parse_duration parts) (parse_parts-Tidy parts)
        (parse_part parse_duration (trim_space part) r) (parse_part-Tidy (trim_space part) r t)

  parse-Tidy : (spec : Text) (r : Registry) → Tidy r → Tidy (parse parse_duration spec r).1
  unfolding parse
  parse-Tidy spec r t = elim (Bool-cases (text_eq (trim_space spec) [])) [
    | inl blank ↦ rw blank t
    | inr filled ↦ rw filled (parse_parts-Tidy (split b',' spec) r t)
  ]

-- one use of a failpoint that was found
count_use-Tidy :
    (n : Text) (o : Option Action) (r : Registry)
    → r.enabled ≡ true
    → lookup n r.actions ≡ o
    → Tidy r
    → Tidy (count_use n o r).1
unfolding count_use
count_use-Tidy n none r on found t = t
count_use-Tidy n (some a) r on found t = go a.remaining refl
  where
    go : (k : Option ℕ) → a.remaining ≡ k → Tidy (count_use n (some a) r).1
    go none h = rw h t
    go (some zero) h = rw h (delete-Tidy n r t)
    go (some (suc zero)) h = rw h (delete-Tidy n r t)
    go (some (suc (suc k))) h = rw h (
        assign-Tidy n (record a { remaining = some (suc k) }) r on
          (found-known n a r.actions t.known found) t)

eval-Tidy : (overrides : Actions) (n : Text) (r : Registry) → Tidy r → Tidy (eval overrides n r).1
unfolding eval
eval-Tidy overrides n r t = elim (Bool-cases r.enabled) [
  | inr off ↦ subst Tidy (rw off refl) t
  | inl on ↦ elim (Option-cases (lookup n overrides)) [
    | inr (a, own) ↦ subst Tidy (simp (on, own)) t
    | inl shared ↦
        subst Tidy (simp (on, shared)) (count_use-Tidy n (lookup n r.actions) r on refl t)
  ]
]

-- a call of a method of the registry
pub data Call : Type 0 where
  arms : Text → Text → Call
  parses disarms : Text → Call
  resets : Call
  evaluates : Actions → Text → Call

unfoldable pub perform : (Text → Option ℕ) → Call → Registry → Registry
unfolding arm parse disarm reset eval
perform p (arms n spec) r = (arm p n spec r).1
perform p (parses spec) r = (parse p spec r).1
perform p (disarms n) r = disarm n r
perform p resets r = reset r
perform p (evaluates overrides n) r = (eval overrides n r).1

unfoldable pub performs : (Text → Option ℕ) → List Call → Registry → Registry
unfolding perform
performs p [] r = r
performs p (c ∷ cs) r = performs p cs (perform p c r)

perform-Tidy :
    (parse_duration : Text → Option ℕ) (c : Call) (r : Registry)
    → Tidy r
    → Tidy (perform parse_duration c r)
unfolding perform disarm reset
perform-Tidy p (arms n spec) r t = arm-Tidy p n spec r t
perform-Tidy p (parses spec) r t = parse-Tidy p spec r t
perform-Tidy p (disarms n) r t = delete-Tidy n r t
perform-Tidy p resets r t = record { known = _; inert = λ off. refl }
perform-Tidy p (evaluates overrides n) r t = eval-Tidy overrides n r t

performs-Tidy :
    (parse_duration : Text → Option ℕ) (cs : List Call) (r : Registry)
    → Tidy r
    → Tidy (performs parse_duration cs r)
unfolding performs
performs-Tidy p [] r t = t
performs-Tidy p (c ∷ cs) r t = performs-Tidy p cs (perform p c r) (perform-Tidy p c r t)

-- After any calls on a new registry, every armed failpoint is a known one, and a registry that is not enabled has none
-- armed.
pub new_registry-Tidy :
    (parse_duration : Text → Option ℕ) (enabled : Bool) (cs : List Call)
    → Tidy (performs parse_duration cs (new_registry enabled))
unfolding new_registry
new_registry-Tidy p enabled cs =
    performs-Tidy p cs (new_registry enabled) (record { known = _; inert = λ off. refl })
