-- ===== src/Registry/Dotenv/Lines.antt =====
-- What the parser reads from the lines that the program prints.
use infra_shelf.Common.{
  Bytes, true, false, List, [], ◌∷◌, ◌++◌, ◌≡◌, ◌≢◌, refl, arith, All, some, All-append,
}
use infra_shelf.Common.Text.{trim_space, is_space, is_empty, has_prefix, cut, join}
use infra_shelf.Common.Text.Trim.{IsWord, trim_space-IsWord}
use infra_shelf.Common.Text.Split.{Lacks, split-join}
use infra_shelf.Common.Dict.{Dict, insert}
use infra_shelf.Registry.Dotenv.{unquote, parse_line, parse_lines, parse_dotenv}

-- A key: no white space, no `=`, and no comment.
pub record IsKey (k : Bytes) : Type 0 where
  pub word : IsWord k
  pub no_equals : Lacks b'=' k
  pub no_comment : has_prefix (k ++ b'=' ∷ []) (b'#' ∷ []) ≡ false

-- A value that is written as it is read: no white space, and no quote in front.
pub record IsPlain (v : Bytes) : Type 0 where
  pub word : IsWord v
  pub no_double : has_prefix v (b'"' ∷ []) ≡ false
  pub no_single : has_prefix v (b'\'' ∷ []) ≡ false

unquote-IsPlain : (v : Bytes) → IsPlain v → unquote v ≡ v
unfolding unquote
unquote-IsPlain v p = ground (arith, p.no_double, p.no_single)

cut-entry : (k v : Bytes) → Lacks b'=' k → cut (k ++ b'=' ∷ v) b'=' ≡ some (k, v)
unfolding cut
cut-entry [] v h = ground arith
cut-entry (c ∷ k) v (hc, h) = ground (arith, cut-entry k v h)

entry-IsWord : (k v : Bytes) → IsWord k → IsWord v → IsWord (k ++ b'=' ∷ v)
entry-IsWord k v hk hv = All-append (λ c. is_space c ≡ false) k (b'=' ∷ v) hk (refl, hv)

entry_ne : (k v : Bytes) → is_empty (k ++ b'=' ∷ v) ≡ false
entry_ne [] v = refl
entry_ne (c ∷ k) v = refl

entry_no_comment :
    (k v : Bytes)
    → has_prefix (k ++ b'=' ∷ []) (b'#' ∷ []) ≡ false
    → has_prefix (k ++ b'=' ∷ v) (b'#' ∷ []) ≡ false
unfolding has_prefix
entry_no_comment [] v h = refl
entry_no_comment (c ∷ k) v h = ground arith

pub parse_line_entry :
    (k v : Bytes) (env : Dict Bytes)
    → IsKey k
    → IsPlain v
    → parse_line (k ++ b'=' ∷ v) env ≡ insert k v env
unfolding parse_line
parse_line_entry k v env hk hv = rw (
  trim_space-IsWord (k ++ b'=' ∷ v) (entry-IsWord k v hk.word hv.word),
  entry_ne k v,
  entry_no_comment k v hk.no_comment,
  cut-entry k v hk.no_equals,
  trim_space-IsWord k hk.word,
  trim_space-IsWord v hv.word,
  unquote-IsPlain v hv,
)

-- A line of a printed block: a heading, or a key with its value.
pub data Line : Type 0 where
  heading : Bytes → Line
  entry : Bytes → Bytes → Line

abbrev pub print_line : Line → Bytes
print_line (heading s) = b'#' ∷ s
print_line (entry k v) = k ++ b'=' ∷ v

abbrev pub print_lines : List Line → List Bytes
print_lines [] = []
print_lines (l ∷ ls) = print_line l ∷ print_lines ls

-- A heading that stays one line when its ends are trimmed.
abbrev pub IsLine : Line → Type 0
IsLine (heading s) = Lacks b'\n' s × (has_prefix (trim_space (b'#' ∷ s)) (b'#' ∷ []) ≡ true)
IsLine (entry k v) = IsKey k × IsPlain v

-- The map that the lines stand for, over a map that is there.
unfoldable pub entries : List Line → Dict Bytes → Dict Bytes
entries [] env = env
entries (heading s ∷ ls) env = entries ls env
entries (entry k v ∷ ls) env = entries ls (insert k v env)

word_one_line : (s : Bytes) → IsWord s → Lacks b'\n' s
word_one_line [] h = tt
word_one_line (c ∷ s) (hc, h) = ground (arith, word_one_line s h)

one_line : (l : Line) → IsLine l → Lacks b'\n' (print_line l)
one_line (heading s) (h, _) = (refl, h)
one_line (entry k v) (hk, hv) = word_one_line (k ++ b'=' ∷ v) (entry-IsWord k v hk.word hv.word)

one_lines : (ls : List Line) → All IsLine ls → All (Lacks b'\n') (print_lines ls)
one_lines [] h = tt
one_lines (l ∷ ls) (hl, h) = (one_line l hl, one_lines ls h)

prefix_ne : (s : Bytes) → has_prefix s (b'#' ∷ []) ≡ true → is_empty s ≡ false
unfolding has_prefix
prefix_ne [] h = ground arith
prefix_ne (c ∷ s) h = refl

parse_line_heading :
    (s : Bytes) (env : Dict Bytes) → IsLine (heading s) → parse_line (b'#' ∷ s) env ≡ env
unfolding parse_line
parse_line_heading s env (_, h) = rw (h, prefix_ne (trim_space (b'#' ∷ s)) h)

parse_lines-print_lines :
    (ls : List Line) (env : Dict Bytes)
    → All IsLine ls
    → parse_lines (print_lines ls) env ≡ entries ls env
unfolding parse_lines entries
parse_lines-print_lines [] env h = refl
parse_lines-print_lines (heading s ∷ ls) env (hl, h) =
    rw (parse_lines, parse_line_heading s env hl) (parse_lines-print_lines ls env h)
parse_lines-print_lines (entry k v ∷ ls) env ((hk, hv), h) =
    rw (parse_lines, parse_line_entry k v env hk hv) (parse_lines-print_lines ls (insert k v env) h)

-- Parsing printed lines gives the map of their entries.
pub parse_dotenv-join :
    (ls : List Line)
    → ls ≢ []
    → All IsLine ls
    → parse_dotenv (join (print_lines ls) (b'\n' ∷ [])) ≡ entries ls []
unfolding parse_dotenv
parse_dotenv-join [] ne h = absurd (ne refl)
parse_dotenv-join (l ∷ ls) ne h =
    rw (split-join b'\n' (print_lines (l ∷ ls)) (cc) (one_lines (l ∷ ls) h))
      (parse_lines-print_lines (l ∷ ls) [] h)
