-- ===== src/Regex/Pattern.antt =====
-- From a pattern to its regular expression, for the part of the syntax that the suites use.
pub mod Literal
use kong_coco.Prelude.{
  ℕ, Bool, true, false, Option, none, some, List, [], ◌∷◌, Text, codes, ◌&&◌, ◌||◌, ◌==◌, nat_eq,
  leb, contains, if◌then◌else◌,
}
use kong_coco.Env.{Env}
use kong_coco.Regex.{Regex, never, empty, one, seq, alt, plus, exactly, dot, digit, found}

-- A group that is open: the alternatives before the last `|`, the items behind it from the last
-- to the first, and whether the last item may be repeated.
pub record Frame : Type 0 where
  pub alternatives : Option Regex
  pub items : List Regex
  pub repeatable : Bool

pub record State : Type 0 where
  pub outer : List Frame
  pub frame : Frame
  pub escaped : Bool

abbrev pub no_items : Option Regex → Frame
no_items alternatives = record { alternatives = alternatives; items = []; repeatable = false }

unfoldable pub sequence : List Regex → Regex
sequence [] = empty
sequence (r ∷ rs) = seq (sequence rs) r

unfoldable pub close : Frame → Regex
unfolding sequence
close f = elim f.alternatives [ none ↦ sequence f.items | some r ↦ alt r (sequence f.items) ]

abbrev pub push : Regex → Frame → Frame
push r f = record f { items = r ∷ f.items; repeatable = true }

repeat_last : State → List Regex → Bool → Option State
repeat_last st (r ∷ rs) true =
    some (record st { frame = record (st.frame) { items = plus r ∷ rs; repeatable = false } })
repeat_last st _ _ = none

end_group : State → List Frame → Option State
unfolding close
end_group st [] = none
end_group st (f ∷ fs) = some (record st { outer = fs; frame = push (close st.frame) f })

-- Signs that mean something else, or may mean it.
abbrev reserved : Text
reserved = codes "*?[]{}^$"

-- `\d`, `\w` and the like: of these, only the first is read.
is_alphanumeric : ℕ → Bool
is_alphanumeric c =
    (leb b'0' c && leb c b'9') || ((leb b'A' c && leb c b'Z') || (leb b'a' c && leb c b'z'))

escaped_sign : State → ℕ → Option State
unfolding is_alphanumeric
escaped_sign st c =
    let st' = record st { escaped = false } in
    if c == b'd'
    then some (record st' { frame = push (one digit) st.frame })
    else if is_alphanumeric c
    then none
    else some (record st' { frame = push (one (exactly c)) st.frame })

plain_sign : State → ℕ → Option State
unfolding close repeat_last end_group contains
plain_sign st c =
    if c == b'\\'
    then some (record st { escaped = true })
    else if c == b'.'
    then some (record st { frame = push (one dot) st.frame })
    else if c == b'('
    then some (record st { outer = st.frame ∷ st.outer; frame = no_items none })
    else if c == b')'
    then end_group st st.outer
    else if c == b'|'
    then some (record st { frame = no_items (some (close st.frame)) })
    else if c == b'+'
    then repeat_last st st.frame.items st.frame.repeatable
    else if contains c reserved
    then none
    else some (record st { frame = push (one (exactly c)) st.frame })

-- One sign of the pattern.
unfoldable pub read_sign : State → ℕ → Option State
unfolding escaped_sign plain_sign
read_sign st c = if st.escaped then escaped_sign st c else plain_sign st c

unfoldable pub finish : List Frame → Bool → Frame → Option Regex
unfolding close
finish [] false f = some (close f)
finish _ _ f = none

unfoldable pub compile_from : State → Text → Option Regex
unfolding read_sign finish
compile_from st [] = finish st.outer st.escaped st.frame
compile_from st (c ∷ p) = elim (read_sign st c) [ none ↦ none | some st' ↦ compile_from st' p ]

abbrev pub start : State
start = record { outer = []; frame = no_items none; escaped = false }

-- `re.compile(pattern)`: `none` where the pattern uses more of the syntax.
unfoldable pub compile : Text → Option Regex
unfolding compile_from
compile = compile_from start

-- `bool(re.search(pattern, text))`
unfoldable pub re_search : Env → Text → Text → Bool
unfolding compile found
re_search env pattern text = elim (compile pattern) [
  | none ↦ env.search pattern text
  | some r ↦ found r text
]
