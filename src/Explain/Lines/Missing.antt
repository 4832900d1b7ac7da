-- ===== src/Explain/Lines/Missing.antt =====
-- The files that `explain` cannot show.
use kong_coco.Prelude.{◌≡◌, refl, ℕ, Bool, true, false, Option, none, some, [], Text, codes}
use kong_coco.Result.{ok, err, attribute_error, ◌>>=◌, >>=-returns}
use kong_coco.Explain.Info.{ElfInfo, NginxInfo, Info, plain, elf, nginx, base}
use kong_coco.Explain.Load.{Entry, file_info}
use kong_coco.Explain.Nginx.{nginx_info}
use kong_coco.Explain.Lines.{ExplainOpts, Lines, size_lines, explain_file, nginx_lines, explain}

explain_file-link :
    (opts : ExplainOpts) (path relpath : Text) (e : Entry) {target : Text}
    → e.symlink ≡ some target
    → opts.size ≡ true
    → explain_file opts (file_info path relpath e) ≡ err (attribute_error (codes "size"))
unfolding explain_file file_info
explain_file-link opts path relpath e h s = rw (h, s)

-- Under --size a symbolic link cannot be explained, whichever object stands for it: reading its
-- size raises an AttributeError.
pub explain-link_size :
    (opts : ExplainOpts) (path relpath : Text) (e : Entry) (i : Info) {target : Text}
    → base i ≡ file_info path relpath e
    → e.symlink ≡ some target
    → opts.size ≡ true
    → explain opts i ≡ err (attribute_error (codes "size"))
unfolding explain base
explain-link_size opts path relpath e (plain f) b h s =
    rw b (explain_file-link opts path relpath e h s)
explain-link_size opts path relpath e (elf f x) b h s =
    rw (b, explain_file-link opts path relpath e h s)
explain-link_size opts path relpath e (nginx f x n) b h s =
    rw (b, explain_file-link opts path relpath e h s)

size_lines-known : (b : Bool) (n : ℕ) → (l : Lines) × (size_lines b (some n) ≡ ok l)
unfolding size_lines
size_lines-known true n = (_, refl)
size_lines-known false n = (_, refl)

size-file_info :
    (path relpath : Text) (e : Entry)
    → e.symlink ≡ none
    → (file_info path relpath e).size ≡ some e.st_size
unfolding file_info
size-file_info path relpath e h = rw h refl

explain_file-file :
    (opts : ExplainOpts) (path relpath : Text) (e : Entry)
    → e.symlink ≡ none
    → (l : Lines) × (explain_file opts (file_info path relpath e) ≡ ok l)
unfolding explain_file
explain_file-file opts path relpath e h =
    let (l, p) = size_lines-known opts.size e.st_size in
    >>=-returns (size_lines opts.size (file_info path relpath e).size) _
      (l, rw (size-file_info path relpath e h) p)

-- An nginx binary that is no symbolic link and needs no library loads, and then cannot be
-- explained under any options: reading nginx_modules raises an AttributeError.
pub explain-nginx_no_libraries :
    (opts : ExplainOpts) (path relpath : Text) (e : Entry) (i : ElfInfo)
    → i.needed_libraries ≡ []
    → e.symlink ≡ none
    → (n : Option NginxInfo) × (nginx_info e i ≡ ok n)
      × (explain opts (nginx (file_info path relpath e) i n)
          ≡ err (attribute_error (codes "nginx_modules")))
unfolding nginx_info explain
explain-nginx_no_libraries opts path relpath e i h s =
    let (lines, p) = explain_file-file opts path relpath e s in
    (none, rw h, rw (p, ◌>>=◌, nginx_lines))
