-- ===== src/Sdk/Script.antt =====
-- What the command-line scripts of the SDK do: calls of the key service, what they print, and how
-- they end.
pub mod Silent
use kong_coco.Prelude.{
  ℕ, ◌≡◌, refl, ap, Option, none, some, List, [], ◌∷◌, Text, nat_eq, ◌==◌, if◌then◌else◌,
}
use kong_coco.Prelude.Spaces.{strip}
use kong_coco.Result.{Error, Result, ok, err}

-- The calls of ehsm.Client.
pub data Request : Type 0 where
  connect : (base_url : Text) → Request
  enroll list_key : Request
  set_appid set_apikey : Option Text → Request
  create_key : (keyspec origin keyusage : Text) → Request
  encrypt decrypt : (aad keyid content : Text) → Request
  generate_quote : (challenge : Text) → Request

pub data Event : Type 0 where
  requested : Request → Event
  printed : Text → Event

-- How a step ends: with a value, by `sys.exit`, or by an exception.
pub data Ended {ℓ} (A : Type ℓ) : Type ℓ where
  finished : A → Ended A
  exited : ℕ → Ended A
  failed : Error → Ended A

-- Around the scripts: the directory they run in, the files, as they are read in text mode, and the client, whose answer to a
-- request may depend on all that happened before it.
pub record Service : Type 0 where
  pub contents : Text → Result Text
  pub answer : List Event → Request → Result Text
  pub working_directory : Result Text

-- A script goes on from what happened so far, the last event first.
abbrev pub Script {ℓ} : Type ℓ → Type ℓ
Script A = List Event → Ended A × List Event

infixl 5 ◌>>=◌ ◌>>◌
abbrev pub ◌>>=◌ {ℓ κ} : {A : Type ℓ} {B : Type κ} → Script A → (A → Script B) → Script B
◌>>=◌ step next events = elim ((step events).0) [
  | finished a ↦ next a (step events).1
  | exited status ↦ (exited status, (step events).1)
  | failed e ↦ (failed e, (step events).1)
]

abbrev pub ◌>>◌ {ℓ κ} : {A : Type ℓ} {B : Type κ} → Script A → Script B → Script B
first >> second = first >>= λ _. second

abbrev pub returns {ℓ} : {A : Type ℓ} → A → Script A
returns a events = (finished a, events)

-- `print(s)`
abbrev pub print : Text → Script (Unit {0})
print s events = (finished tt, printed s ∷ events)

-- `sys.exit(status)`
abbrev pub sys_exit : ℕ → Script (Unit {0})
sys_exit status events = (exited status, events)

abbrev pub ended : Result Text → Ended Text
ended (ok s) = finished s
ended (err e) = failed e

module _ (service : Service) where
  abbrev pub request : Request → Script Text
  request r events = (ended (service.answer events r), requested r ∷ events)

  -- `open(path).read()`
  abbrev pub read_file : Text → Script Text
  read_file path events = (ended (service.contents path), events)

  -- `os.getcwd()`
  abbrev pub getcwd : Script Text
  getcwd events = (ended service.working_directory, events)

-- A step that finishes hands on to what follows it.
pub >>=-finished {ℓ κ} :
    {A : Type ℓ} {B : Type κ} (step : Script A) (next : A → Script B) (events after : List Event)
    (a : A)
    → step events ≡ (finished a, after)
    → (step >>= next) events ≡ next a after
>>=-finished step next events after a h =
    ap
      (λ (r : Ended _ × List Event). elim r.0 [
        | finished b ↦ next b r.1
        | exited status ↦ (exited status, r.1)
        | failed e ↦ (failed e, r.1)
      ])
      h

module _ (service : Service) where
  pub request-finished :
      (r : Request) (events : List Event) (s : Text)
      → service.answer events r ≡ ok s
      → request service r events ≡ (finished s, requested r ∷ events)
  request-finished r events s h = ap (λ a. (ended a, requested r ∷ events)) h

  -- A request whose answer is printed.
  abbrev pub reported : Request → List Event → Result Text → Ended (Unit {0}) × List Event
  reported r events (ok s) = (finished tt, printed s ∷ requested r ∷ events)
  reported r events (err e) = (failed e, requested r ∷ events)

  pub request-print :
      (r : Request) (events : List Event)
      → (request service r >>= print) events ≡ reported r events (service.answer events r)
  request-print r events = report r events (service.answer events r)
    where
      report :
          (r : Request) (events : List Event) (a : Result Text)
          → (elim (ended a) [
            | finished s ↦ print s (requested r ∷ events)
            | exited status ↦ (exited status, requested r ∷ events)
            | failed e ↦ (failed e, requested r ∷ events)
          ])
            ≡ reported r events a
      report r events (ok s) = refl
      report r events (err e) = refl

  pub read_file-finished :
      (path : Text) (events : List Event) (s : Text)
      → service.contents path ≡ ok s
      → read_file service path events ≡ (finished s, events)
  read_file-finished path events s h = ap (λ a. (ended a, events)) h

-- `file.readlines()`: each line keeps its end.
unfoldable pub readlines : Text → List Text
readlines [] = []
readlines (c ∷ s) = let rest = readlines s in if c == 10 then (c ∷ []) ∷ rest else begin_line c rest
  where
    begin_line : ℕ → List Text → List Text
    begin_line c [] = (c ∷ []) ∷ []
    begin_line c (line ∷ lines) = (c ∷ line) ∷ lines

-- The first two lines, if there are two.
unfoldable pub credentials : List Text → Option Text × Option Text
unfolding strip
credentials (first ∷ second ∷ lines) = (some (strip first), some (strip second))
credentials _ = (none, none)
