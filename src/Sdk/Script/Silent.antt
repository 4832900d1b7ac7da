-- ===== src/Sdk/Script/Silent.antt =====
-- Steps of a script that print nothing, and what scripts have printed if they fail.
use kong_coco.Prelude.{ℕ, ◌≡◌, List, All, Text}
use kong_coco.Result.{Error}
use kong_coco.Sdk.Script.{
  Script, Request, Event, Service, requested, printed, Ended, finished, exited, failed, ◌>>=◌,
  print, request, read_file,
}

-- A request, and no printed line.
abbrev pub IsRequest : Event → Type 0
IsRequest (requested r) = Unit
IsRequest (printed s) = ⊥

-- A step that prints nothing.
abbrev pub IsQuiet : {A : Type 0} → Script A → Type 0
IsQuiet step = (events : List Event) → All IsRequest events → All IsRequest (step events).1

-- A script that leaves events as `P` says of the exception, if it ends by one.
abbrev pub Leaves : {A : Type 0} → (Error → List Event → Type 0) → Script A → Type 0
Leaves P script =
    (events : List Event) (e : Error)
    → All IsRequest events
    → (script events).0 ≡ failed e
    → P e (script events).1

abbrev pub NothingPrinted : Error → List Event → Type 0
NothingPrinted e events = All IsRequest events

-- A script that has printed nothing if it ends by an exception.
abbrev pub IsSilent : {A : Type 0} → Script A → Type 0
IsSilent script = Leaves NothingPrinted script

-- What a step came to, handed on.
abbrev pub continue : {A B : Type 0} → (A → Script B) → Ended A × List Event → Ended B × List Event
continue next r = elim r.0 [
  | finished a ↦ next a r.1
  | exited status ↦ (exited status, r.1)
  | failed e ↦ (failed e, r.1)
]

module _ {A B : Type 0} (step : Script A) (next : A → Script B) where
  pub >>=-IsQuiet : IsQuiet step → ((a : A) → IsQuiet (next a)) → IsQuiet (step >>= next)
  >>=-IsQuiet hs hn events h = go (step events) (hs events h)
    where
      go : (r : Ended A × List Event) → All IsRequest r.1 → All IsRequest (continue next r).1
      go (finished a, after) k = hn a after k
      go (exited status, after) k = k
      go (failed e, after) k = k

  pub >>=-Leaves :
      (P : Error → List Event → Type 0)
      → ((e : Error) (events : List Event) → All IsRequest events → P e events)
      → IsQuiet step
      → ((a : A) → Leaves P (next a))
      → Leaves P (step >>= next)
  >>=-Leaves P silent hs hn events e h = go (step events) (hs events h)
    where
      go :
          (r : Ended A × List Event)
          → All IsRequest r.1
          → (continue next r).0 ≡ failed e
          → P e (continue next r).1
      go (finished a, after) k p = hn a after e k p
      go (exited status, after) k p = silent e after k
      go (failed e', after) k p = silent e after k

  pub >>=-IsSilent : IsQuiet step → ((a : A) → IsSilent (next a)) → IsSilent (step >>= next)
  >>=-IsSilent = >>=-Leaves NothingPrinted (λ e events h. h)

pub finished-ne-failed : {A : Type 0} {a : A} {e : Error} → finished a ≡ failed e → ⊥
finished-ne-failed h = cc

pub print-IsSilent : (s : Text) → IsSilent (print s)
print-IsSilent s events e h p = absurd (finished-ne-failed p)

pub exited-ne-failed :
    (status : ℕ) (e : Error) → ◌≡◌ {A = Ended (Unit {0})} (exited status) (failed e) → ⊥
exited-ne-failed status e h = cc

module _ (service : Service) where
  pub request-IsQuiet : (r : Request) → IsQuiet (request service r)
  request-IsQuiet r events h = (tt, h)

  pub read_file-IsQuiet : (path : Text) → IsQuiet (read_file service path)
  read_file-IsQuiet path events h = h

  -- One request, and what follows it.
  pub asks-IsSilent :
      (r : Request) (next : Text → Script (Unit {0}))
      → ((s : Text) → IsSilent (next s))
      → IsSilent (request service r >>= next)
  asks-IsSilent r next h = >>=-IsSilent (request service r) next (request-IsQuiet r) h

  pub asks-IsQuiet :
      (r : Request) (next : Text → Script (Unit {0}))
      → ((s : Text) → IsQuiet (next s))
      → IsQuiet (request service r >>= next)
  asks-IsQuiet r next h = >>=-IsQuiet (request service r) next (request-IsQuiet r) h
