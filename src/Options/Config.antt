-- ===== src/Options/Config.antt =====
-- `read_config` and `write_config` of benchmarks/sysbench/src/sb_options.c. A file is its
-- text, of bytes other than NUL, and `buffers` is what `fgets` returns for it, call by call.
pub mod RoundTrip
use nu_ksm_pact21_artifact.Base.{
  ℕ, zero, suc, ◌-◌, Bool, true, false, not, Option, none, some, List, [], ◌∷◌, ◌++◌, ◌||◌, ◌&&◌,
  ◌==◌, leb, if◌then◌else◌, length,
}
use nu_ksm_pact21_artifact.Options.{
  Text, Opt, find_option, modify_option, add_option, add_value, free_values, convert_dashes,
}

abbrev pub delimiter : ℕ
delimiter = b'='

abbrev pub separator : ℕ
separator = b','

-- `isspace` in the "C" locale: tab, newline, vertical tab, form feed, return and space.
abbrev pub is_space : ℕ → Bool
is_space c = c == 32 || leb 9 c && leb c 13

abbrev pub is_quote : ℕ → Bool
is_quote c = c == 39 || c == 34

-- The text before the first byte that `stop` accepts, and the rest from that byte on.
unfoldable pub break : (ℕ → Bool) → Text → Text × Text
break stop [] = ([], [])
break stop (c ∷ t) = if stop c then ([], c ∷ t) else (let (w, r) = break stop t in (c ∷ w, r))

abbrev pub drop_one : Text → Text
drop_one [] = []
drop_one (c ∷ t) = t

abbrev pub with_value : Text → List Text × Bool → List Text × Bool
with_value v (vs, done) = (v ∷ vs, done)

-- The loop over what stands behind `=`: the values that it adds, in order, and whether it reaches
-- the end; `false` is the return after "unexpected EOL". Every round takes a byte at least, so a
-- fuel above the text's length is not used up.
unfoldable pub scan_values : ℕ → Text → List Text × Bool
unfolding break
scan_values zero t = ([], false)
scan_values (suc fuel) [] = ([], true)
scan_values (suc fuel) (c ∷ t) =
    let skip = scan_values fuel t in
    let (quoted, after) = break (λ d. d == c) t in
    let quoted_rest =
      scan_values fuel (drop_one (break (λ d. d == separator) (drop_one after)).1) in
    let (word, behind) = break (λ d. d == separator || is_space d) (c ∷ t) in
    let bare_rest = scan_values fuel (drop_one behind) in
    if is_space c
    then skip
    else if c == b'#'
    then ([], true)
    else if is_quote c
    then elim after [ [] ↦ ([], false) | q ∷ r ↦ with_value quoted quoted_rest ]
    else with_value word bare_rest

-- One round of the loop over the lines, with the buffer broken at its first `=`: the table after
-- it, and whether the loop goes on.
unfoldable pub store_line : Text × Text → List Opt → List Opt × Bool
unfolding scan_values
store_line (name, []) os = (os, true)
store_line (name, d ∷ rest) os =
    let (values, done) = scan_values (suc (length rest)) rest in
    (modify_option name (λ o. record o { values = values }) (add_option name os), done)

unfoldable pub read_line : Text → List Opt → List Opt × Bool
unfolding break store_line
read_line buf os = store_line (break (λ d. d == delimiter) buf) os

-- `MAXSTRLEN - 1`: what `fgets` puts into the buffer at most.
abbrev pub max_line : ℕ
max_line = 255

abbrev pub cons_first : ℕ → List Text → List Text
cons_first c [] = (c ∷ []) ∷ []
cons_first c (buf ∷ bufs) = (c ∷ buf) ∷ bufs

-- The buffers that the calls of `fgets` return, with room for `left` more bytes in the first one: a
-- buffer ends behind a newline, when it is full, or at the end of the file.
unfoldable pub buffers : ℕ → Text → List Text
buffers left [] = []
buffers left (c ∷ t) =
    let next = buffers max_line t in
    let same = buffers (left - 1) t in
    if c == 10 || leb left 1 then (c ∷ []) ∷ next else cons_first c same

-- The loop over the buffers; `false` is the return of NULL.
unfoldable pub read_buffers : List Text → List Opt → List Opt × Bool
unfolding read_line
read_buffers [] os = (os, true)
read_buffers (buf ∷ bufs) os =
    let (os', go_on) = read_line buf os in
    let rest = read_buffers bufs os' in if go_on then rest else (os', false)

-- `read_config` of a file with this text.
unfoldable pub read_config : Text → List Opt → List Opt × Bool
unfolding buffers read_buffers
read_config file os = read_buffers (buffers max_line file) os

-- The values of an option, each but the last followed by a separator and a space.
unfoldable pub join_values : List Text → Text
join_values [] = []
join_values (v ∷ []) = v
join_values (v ∷ w ∷ vs) = v ++ (separator ∷ 32 ∷ join_values (w ∷ vs))

-- The line of one option. The test of a value's `ignore` is left out: no code sets that flag.
unfoldable pub write_option : Opt → Text
unfolding join_values
write_option o = o.name ++ (32 ∷ delimiter ∷ 32 ∷ (join_values o.values ++ (10 ∷ [])))

-- `write_config`: the lines, and the table with every written option marked.
unfoldable pub write_config : List Opt → List Text × List Opt
unfolding write_option
write_config [] = ([], [])
write_config (o ∷ os) =
    let (out, os') = write_config os in
    if o.ignore then (out, o ∷ os') else (write_option o ∷ out, record o { ignore = true } ∷ os')
