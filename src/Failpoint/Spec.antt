-- ===== src/Failpoint/Spec.antt =====
-- How internal/failpoint/failpoint.go arms failpoints: `Arm`, `Parse`, `Active` and `WithRequestFailpoints`.
-- `parse_duration` and `show_duration` are `time.ParseDuration` and `Duration.String`; a negative duration counts as 0,
-- which sleeps as long.
pub mod Arming
pub mod Calls
pub mod Overrides
use fault_tolerant_payment_l.Base.{
  ℕ, ℤ, pos, negsuc, Text, text, text_eq, split, trim_space, cut_or_all, cut, itoa, atoi, Bool,
  true, false, not, ◌||◌, Option, none, some, List, [], ◌∷◌, ◌++◌, map, exists, if◌then◌else◌,
}
use fault_tolerant_payment_l.Failpoint.{
  before_tx_begin, after_accounts_locked, after_entries_written, after_balances_updated,
  after_outbox_written, before_commit, after_commit, before_kafka_publish, after_kafka_publish,
  before_webhook_persist, before_webhook_send, Kind, error, panic, sleep, Action, Actions, Registry,
  assign, disarm,
}

-- `All`
abbrev pub known : List Text
known =
    before_tx_begin ∷ after_accounts_locked ∷ after_entries_written ∷ after_balances_updated
    ∷ after_outbox_written ∷ before_commit ∷ after_commit ∷ before_kafka_publish
    ∷ after_kafka_publish ∷ before_webhook_persist ∷ before_webhook_send ∷ []

-- `isKnown`
unfoldable pub is_known : Text → Bool
is_known name = exists (λ n. text_eq n name) known

-- the errors, of which the callers see the text
pub data SpecError : Type 0 where
  disabled malformed unknown_failpoint bad_count bad_duration unknown_action : SpecError

-- what the text after a failpoint's name asks for
pub data Request : Type 0 where
  arming : Action → Request
  disarming : Request
  refused : SpecError → Request

abbrev pub counted : Kind → Option ℤ → Request
counted kind none = refused bad_count
counted kind (some (pos n)) = arming (record { kind = kind; remaining = some n })
counted kind (some (negsuc n)) = refused bad_count

unfoldable pub read_counted : Kind → Text → Request
unfolding atoi
read_counted kind [] = arming (record { kind = kind; remaining = none })
read_counted kind (c ∷ cs) = counted kind (atoi (c ∷ cs))

unfoldable pub read_timed : Option ℕ → Request
read_timed none = refused bad_duration
read_timed (some d) = arming (record { kind = sleep d; remaining = none })

-- the loop goes on, or returns its error
unfoldable pub unless_refused :
    {S : Type 0} → (S → Option SpecError × S) → Option SpecError × S → Option SpecError × S
unless_refused others (none, s) = others s
unless_refused others (some e, s) = (some e, s)

module _ (parse_duration : Text → Option ℕ) where
  -- the switch of `Arm`
  unfoldable pub read_request : Text × Text → Request
  unfolding read_counted read_timed
  read_request (kind, rest) =
      if text_eq kind (text "error")
      then read_counted error rest
      else if text_eq kind (text "panic")
      then read_counted panic rest
      else if text_eq kind (text "sleep")
      then read_timed (parse_duration rest)
      else if text_eq kind (text "off") || text_eq kind []
      then disarming
      else refused unknown_action

  unfoldable pub obey : Text → Request → Registry → Option SpecError × Registry
  unfolding assign disarm
  obey name (arming a) r = (none, record r { actions = assign name a r.actions })
  obey name disarming r = (none, disarm name r)
  obey name (refused e) r = (some e, r)

  -- `Arm`
  unfoldable pub arm : Text → Text → Registry → Option SpecError × Registry
  unfolding is_known read_request obey
  arm name spec r =
      if not r.enabled
      then (some disabled, r)
      else if not (is_known name)
      then (some unknown_failpoint, r)
      else obey name (read_request (cut_or_all b':' spec)) r

  unfoldable pub arm_cut : Option (Text × Text) → Registry → Option SpecError × Registry
  unfolding arm
  arm_cut none r = (some malformed, r)
  arm_cut (some (name, spec)) r = arm (trim_space name) (trim_space spec) r

  -- one part of the loop of `Parse`
  unfoldable pub parse_part : Text → Registry → Option SpecError × Registry
  unfolding arm_cut
  parse_part [] r = (none, r)
  parse_part (b ∷ bs) r = arm_cut (cut b'=' (b ∷ bs)) r

  unfoldable pub parse_parts : List Text → Registry → Option SpecError × Registry
  unfolding parse_part unless_refused
  parse_parts [] r = (none, r)
  parse_parts (part ∷ parts) r = unless_refused (parse_parts parts) (parse_part (trim_space part) r)

  -- `Parse`
  unfoldable pub parse : Text → Registry → Option SpecError × Registry
  unfolding parse_parts
  parse spec r = if text_eq (trim_space spec) [] then (none, r) else parse_parts (split b',' spec) r

  -- the action of an override
  unfoldable pub read_override : Text × Text → Request
  unfolding read_timed
  read_override (kind, rest) =
      if text_eq kind (text "sleep")
      then read_timed (parse_duration rest)
      else if text_eq kind (text "error")
      then arming (record { kind = error; remaining = none })
      else if text_eq kind (text "panic")
      then arming (record { kind = panic; remaining = none })
      else refused unknown_action

  unfoldable pub override : Text → Request → Actions → Option SpecError × Actions
  unfolding assign
  override name (arming a) others = (none, assign name a others)
  override name disarming others = (none, others)
  override name (refused e) others = (some e, others)

  unfoldable pub override_cut : Option (Text × Text) → Actions → Option SpecError × Actions
  unfolding is_known read_override override
  override_cut none others = (some malformed, others)
  override_cut (some (name, spec)) others =
      if not (is_known (trim_space name))
      then (some unknown_failpoint, others)
      else override (trim_space name) (read_override (cut_or_all b':' (trim_space spec))) others

  unfoldable pub override_part : Text → Actions → Option SpecError × Actions
  unfolding override_cut
  override_part [] others = (none, others)
  override_part (b ∷ bs) others = override_cut (cut b'=' (b ∷ bs)) others

  unfoldable pub override_parts : List Text → Actions → Option SpecError × Actions
  unfolding override_part unless_refused
  override_parts [] others = (none, others)
  override_parts (part ∷ parts) others =
      unless_refused (override_parts parts) (override_part (trim_space part) others)

  abbrev pub in_context : Actions → Option SpecError × Actions → Option SpecError × Actions
  in_context outer (some e, others) = (some e, outer)
  in_context outer (none, []) = (none, outer)
  in_context outer (none, o ∷ others) = (none, o ∷ others)

  -- `WithRequestFailpoints`, from the overrides of the context to those of the new one
  unfoldable pub with_request_failpoints : Text → Actions → Option SpecError × Actions
  unfolding override_parts
  with_request_failpoints spec outer = in_context outer (override_parts (split b',' spec) [])

module _ (show_duration : ℕ → Text) where
  abbrev pub count_suffix : Option ℕ → Text
  count_suffix none = []
  count_suffix (some n) = b':' ∷ itoa n

  abbrev pub describe_kind : Kind → Option ℕ → Text
  describe_kind error n = text "error" ++ count_suffix n
  describe_kind panic n = text "panic" ++ count_suffix n
  describe_kind (sleep d) n = text "sleep" ++ b':' ∷ show_duration d

  -- the description of `Active`
  unfoldable pub describe : Action → Text
  describe a = describe_kind a.kind a.remaining

  -- `Active`
  unfoldable pub active : Registry → List (Text × Text)
  unfolding describe
  active r = map (λ na. (na.0, describe na.1)) r.actions
