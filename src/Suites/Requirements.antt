-- ===== src/Suites/Requirements.antt =====
-- read_requirements in suites.py, whose module imports neither `os` nor `re`.
use kong_coco.Prelude.{◌≡◌, Option, none, some, List, [], ◌∷◌, Text, codes}
use kong_coco.Result.{Result, ok, err, name_error, ◌>>=◌, >>=-eq-ok}

-- The comprehension over the lines of the file: the first line asks for `re`.
found_in : List Text → Result (List (Text × Text))
found_in [] = ok []
found_in (line ∷ lines) = err (name_error (codes "re"))

-- `lines_of` gives the lines of a file that can be opened.
unfoldable pub read_requirements :
    (Text → Result (List Text)) → Option Text → Result (List (Text × Text))
unfolding found_in
read_requirements lines_of none = err (name_error (codes "os"))
read_requirements lines_of (some []) = err (name_error (codes "os"))
read_requirements lines_of (some (c ∷ path)) = lines_of (c ∷ path) >>= found_in

none_found :
    (lines : List Text) (requirements : List (Text × Text))
    → found_in lines ≡ ok requirements
    → requirements ≡ []
unfolding found_in
none_found [] requirements h = cc
none_found (line ∷ lines) requirements h = cc

-- Only the requirements of an empty file are read, and there are none.
pub read_requirements-ok :
    (lines_of : Text → Result (List Text)) (path : Option Text) (requirements : List (Text × Text))
    → read_requirements lines_of path ≡ ok requirements
    → requirements ≡ []
unfolding read_requirements found_in
read_requirements-ok lines_of none requirements h = cc
read_requirements-ok lines_of (some []) requirements h = cc
read_requirements-ok lines_of (some (c ∷ path)) requirements h =
    let (lines, _, e) = >>=-eq-ok (lines_of (c ∷ path)) found_in h in
    none_found lines requirements e
