-- ===== src/Options/Config/RoundTrip.antt =====
-- Reading back what `write_config` writes: the values return, the name gets a trailing space.
use mathlib.Core.List.{append_assoc, append-nil}
use nu_ksm_pact21_artifact.Base.{
  ℕ, zero, suc, ◌+◌, ◌<◌, ◌≡◌, ◌≢◌, ◌∙◌, ◌-◌, ◌≤◌, refl, sym, ap, Bool, true, false, inl, inr, none,
  List, [], ◌∷◌, ◌++◌, arith, ◌||◌, ◌==◌, leb, length, length-append, Bool-cases,
}
use nu_ksm_pact21_artifact.Options.{
  Text, Opt, convert_dashes, same_name, find_option, modify_option, add_option,
}
use nu_ksm_pact21_artifact.Options.Names.{IsText, same_name_iff}
use nu_ksm_pact21_artifact.Options.Lookup.{IsTable, find_option-add_option, find_option-modify_none}
use nu_ksm_pact21_artifact.Options.Config.{
  is_space, is_quote, separator, delimiter, break, drop_one, store_line, with_value, scan_values,
  read_line, max_line, cons_first, buffers, read_buffers, read_config, join_values, write_option,
}

abbrev stops_word : ℕ → Bool
stops_word d = d == separator || is_space d

abbrev pub NoStop : (ℕ → Bool) → Text → Type 0
NoStop stop [] = Unit
NoStop stop (c ∷ t) = (stop c ≡ false) × NoStop stop t

-- A value that `read_config` takes as one unquoted word.
abbrev pub IsBare : Text → Type 0
IsBare [] = ⊥
IsBare (c ∷ t) =
    (is_quote c ≡ false) × (c ≢ b'#') × NoStop (λ d. d == separator || is_space d) (c ∷ t)

abbrev pub AllBare : List Text → Type 0
AllBare [] = Unit
AllBare (v ∷ vs) = IsBare v × AllBare vs

abbrev pub Stops : (ℕ → Bool) → Text → Type 0
Stops stop [] = Unit
Stops stop (c ∷ t) = stop c ≡ true

break-append :
    (stop : ℕ → Bool) (t rest : Text)
    → NoStop stop t
    → Stops stop rest
    → break stop (t ++ rest) ≡ (t, rest)
unfolding break
break-append stop [] [] n h = refl
break-append stop [] (c ∷ rest) n h = rw h
break-append stop (c ∷ t) rest n h = rw (n.0, break-append stop t rest n.1 h)

scan_values-word :
    (fuel : ℕ) (v rest : Text)
    → IsBare v
    → Stops stops_word rest
    → scan_values (suc fuel) (v ++ rest) ≡ with_value v (scan_values fuel (drop_one rest))
unfolding scan_values
scan_values-word fuel [] rest b h = absurd b
scan_values-word fuel (c ∷ t) rest (quote, hash, n) h =
    let blank : is_space c ≡ false = let e = n.0 in ground arith in
    let comment : (c == b'#') ≡ false = ground arith in
    let comma : (c == separator) ≡ false = let e = n.0 in ground arith in
    rw (blank, comment, quote, comma, break-append stops_word t rest n.1 h)

scan_values-space : (fuel : ℕ) (t : Text) → scan_values (suc fuel) (32 ∷ t) ≡ scan_values fuel t
unfolding scan_values
scan_values-space fuel t = refl

scan_values-nil : (fuel : ℕ) → 0 < fuel → scan_values fuel [] ≡ ([], true)
unfolding scan_values
scan_values-nil zero h = absurd (omega arith)
scan_values-nil (suc fuel) h = refl

scan_values-newline : (fuel : ℕ) → 1 < fuel → scan_values fuel (10 ∷ []) ≡ ([], true)
unfolding scan_values
scan_values-newline zero h = absurd (omega arith)
scan_values-newline (suc fuel) h = scan_values-nil fuel (omega arith)

-- The values of an option come back in order.
scan_values-join_values :
    (vs : List Text) (fuel : ℕ)
    → AllBare vs
    → length (join_values vs) + 2 < fuel
    → scan_values fuel (32 ∷ (join_values vs ++ (10 ∷ []))) ≡ (vs, true)
unfolding join_values
scan_values-join_values vs zero b f = absurd (omega arith)
scan_values-join_values [] (suc fuel) b f =
    scan_values-space fuel (10 ∷ []) ∙ scan_values-newline fuel (omega arith)
scan_values-join_values ([] ∷ vs) (suc fuel) b f = absurd b.0
scan_values-join_values (v ∷ vs) (suc zero) b f = absurd (omega arith)
scan_values-join_values ((c ∷ t) ∷ []) (suc (suc fuel)) b f =
    scan_values-space (suc fuel) _
    ∙ scan_values-word fuel (c ∷ t) (10 ∷ []) b.0 refl
    ∙ ap (with_value (c ∷ t)) (scan_values-nil fuel (omega arith))
scan_values-join_values ((c ∷ t) ∷ w ∷ vs) (suc (suc fuel)) b f =
    let rest = 32 ∷ join_values (w ∷ vs) in
    let shorter : length (join_values (w ∷ vs)) + 2 < fuel =
      omega (arith, length-append t (separator ∷ rest)) in
    scan_values-space (suc fuel) _
    ∙ rw (append_assoc) (scan_values-word fuel (c ∷ t) (separator ∷ (rest ++ (10 ∷ []))) b.0 refl)
    ∙ ap (with_value (c ∷ t)) (scan_values-join_values (w ∷ vs) fuel b.1 shorter)

NoStop-append :
    (t : Text) → NoStop (λ c. c == delimiter) t → NoStop (λ c. c == delimiter) (t ++ (32 ∷ []))
NoStop-append [] n = (refl, tt)
NoStop-append (c ∷ t) n = (n.0, NoStop-append t n.1)

length-convert_dashes : (s : Text) → length (convert_dashes s) ≡ length s
unfolding convert_dashes
length-convert_dashes [] = refl
length-convert_dashes (c ∷ s) = ap suc (length-convert_dashes s)

-- The line in one buffer.
read_line-write_option :
    (o : Opt) (os : List Opt)
    → NoStop (λ c. c == delimiter) o.name
    → AllBare o.values
    → let name = o.name ++ (32 ∷ []) in
      read_line (write_option o) os
      ≡ (modify_option name (λ p. record p { values = o.values }) (add_option name os), true)
unfolding read_line write_option
read_line-write_option o os n b =
    let rest = 32 ∷ (join_values o.values ++ (10 ∷ [])) in
    let split : break (λ c. c == delimiter) (write_option o)
        ≡ (o.name ++ (32 ∷ []), delimiter ∷ rest) =
      rw (← append_assoc o.name (32 ∷ []) (delimiter ∷ rest))
        (break-append _ (o.name ++ (32 ∷ [])) (delimiter ∷ rest) (NoStop-append o.name n) refl) in
    let enough : length (join_values o.values) + 2 < suc (length rest) =
      omega (arith, length-append (join_values o.values) (10 ∷ [])) in
    ap (λ r. store_line r os) split
    ∙ rw (scan_values-join_values o.values (suc (length rest)) b enough)

abbrev pub is_newline : ℕ → Bool
is_newline c = c == 10

NoStop-add : (stop : ℕ → Bool) (s t : Text) → NoStop stop s → NoStop stop t → NoStop stop (s ++ t)
NoStop-add stop [] t a b = b
NoStop-add stop (c ∷ s) t (h, a) b = (h, NoStop-add stop s t a b)

word-newline : (v : Text) → NoStop (λ d. d == separator || is_space d) v → NoStop is_newline v
word-newline [] h = tt
word-newline (c ∷ v) (e, h) = (ground arith, word-newline v h)

value-newline : (v : Text) → IsBare v → NoStop is_newline v
value-newline [] b = tt
value-newline (c ∷ v) (q, k, n) = word-newline (c ∷ v) n

join_values-newline : (vs : List Text) → AllBare vs → NoStop is_newline (join_values vs)
unfolding join_values
join_values-newline [] b = tt
join_values-newline (v ∷ []) (b, bs) = value-newline v b
join_values-newline (v ∷ w ∷ vs) (b, bs) =
    NoStop-add is_newline v (separator ∷ 32 ∷ join_values (w ∷ vs)) (value-newline v b)
      (refl, (refl, join_values-newline (w ∷ vs) bs))

-- A line that fits into what is left of the buffer is one buffer.
buffers-line :
    (t rest : Text) (left : ℕ)
    → NoStop is_newline t
    → length t < left
    → buffers left (t ++ (10 ∷ rest)) ≡ (t ++ (10 ∷ [])) ∷ buffers max_line rest
unfolding buffers
buffers-line [] rest left n fits = refl
buffers-line (c ∷ t) rest left (plain, n) fits =
    let room : leb left 1 ≡ false = ground arith in
    rw (plain, room) (ap (cons_first c) (buffers-line t rest (left - 1) n (omega arith)))

buffers-write_option :
    (o : Opt) (rest : Text)
    → NoStop is_newline o.name
    → AllBare o.values
    → length (write_option o) ≤ max_line
    → buffers max_line (write_option o ++ rest) ≡ write_option o ∷ buffers max_line rest
unfolding write_option
buffers-write_option o rest l b fits =
    let values = 32 ∷ delimiter ∷ 32 ∷ join_values o.values in
    let body = o.name ++ values in
    let same : body ++ (10 ∷ []) ≡ write_option o = append_assoc o.name values (10 ∷ []) in
    let whole : write_option o ++ rest ≡ body ++ (10 ∷ rest) =
      ap (λ w. w ++ rest) (sym same) ∙ append_assoc body (10 ∷ []) rest in
    let size : length (body ++ (10 ∷ [])) ≤ max_line = rw same fits in
    let short : length body < max_line = omega (arith, length-append body (10 ∷ [])) in
    let no_newline : NoStop is_newline body =
      NoStop-add is_newline o.name values l
        (refl, (refl, (refl, join_values-newline o.values b))) in
    ap (buffers max_line) whole
    ∙ buffers-line body rest max_line no_newline short
    ∙ ap (λ w. w ∷ buffers max_line rest) same

-- In a file that begins with the line that `write_config` writes for an option, where the line has at
-- most 255 bytes, the option's name no `=` and no newline, and each value is one unquoted word:
-- `read_config` stores exactly the values, in their order, in the option whose name is the written
-- one with a space behind it, and goes on with the rest of the file.
pub read_config-write_option :
    (o : Opt) (rest : Text) (os : List Opt)
    → NoStop (λ c. c == delimiter) o.name
    → NoStop is_newline o.name
    → AllBare o.values
    → length (write_option o) ≤ max_line
    → let name = o.name ++ (32 ∷ []) in
      read_config (write_option o ++ rest) os
      ≡ read_config rest
          (modify_option name (λ p. record p { values = o.values }) (add_option name os))
unfolding read_config read_buffers
read_config-write_option o rest os n l b fits =
    ap (λ bufs. read_buffers bufs os) (buffers-write_option o rest l b fits)
    ∙ rw (read_line-write_option o os n b) refl

-- The line alone.
read_config_line :
    (o : Opt) (os : List Opt)
    → NoStop (λ c. c == delimiter) o.name
    → NoStop is_newline o.name
    → AllBare o.values
    → length (write_option o) ≤ max_line
    → let name = o.name ++ (32 ∷ []) in
      read_config (write_option o) os
      ≡ (modify_option name (λ p. record p { values = o.values }) (add_option name os), true)
unfolding read_config read_buffers buffers
read_config_line o os n l b fits =
    ap (λ t. read_config t os) (sym (append-nil (write_option o)))
    ∙ read_config-write_option o [] os n l b fits

same_name-length : (s t : Text) → IsText s → IsText t → same_name s t ≡ true → length s ≡ length t
same_name-length s t hs ht e =
    sym (length-convert_dashes s)
    ∙ ap length ((same_name_iff s t hs ht).0 e)
    ∙ length-convert_dashes t

IsText-append : (s : Text) → IsText s → IsText (s ++ (32 ∷ []))
IsText-append [] h = (omega arith, tt)
IsText-append (c ∷ s) h = (h.0, IsText-append s h.1)

longer : (s : Text) → IsText s → same_name (s ++ (32 ∷ [])) s ≡ false
longer s h = elim (Bool-cases (same_name (s ++ (32 ∷ [])) s)) [
  | inl e ↦ absurd (
      omega (
        arith,
        same_name-length (s ++ (32 ∷ [])) s (IsText-append s h) h e,
        length-append s (32 ∷ []),
      ))
  | inr e ↦ e
]

-- A file of one line of at most 255 bytes, the one that `write_config` writes for an option (its name
-- a C string with no `=` and no newline, its values unquoted words), read into a table of C strings
-- that does not have the option, leaves a table in which the option's name still finds nothing.
pub read_config-lost :
    (o : Opt) (os : List Opt)
    → IsText o.name
    → NoStop (λ c. c == delimiter) o.name
    → NoStop is_newline o.name
    → AllBare o.values
    → length (write_option o) ≤ max_line
    → IsTable os
    → find_option o.name os ≡ none
    → find_option o.name (read_config (write_option o) os).0 ≡ none
read_config-lost o os h n l b fits t absent =
    let name = o.name ++ (32 ∷ []) in
    let added : find_option o.name (add_option name os) ≡ none =
      find_option-add_option name o.name os (IsText-append o.name h) h t
      ∙ rw (absent, longer o.name h) in
    rw (read_config_line o os n l b fits)
      (find_option-modify_none name o.name _ _ (λ p. refl) added)
