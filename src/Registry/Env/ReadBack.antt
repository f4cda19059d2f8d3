-- ===== src/Registry/Env/ReadBack.antt =====
-- The .env blocks read back by the program's own parser.
use infra_shelf.Common.{
  Bytes, Bool, true, false, not, ◌&&◌, List, [], ◌∷◌, ◌++◌, ◌≡◌, refl, arith, All, all, All-append,
  some, ◌==◌,
}
use infra_shelf.Common.Text.{codes, is_space, has_prefix, str_eq, join, trim_space}
use infra_shelf.Common.Text.Trim.{IsWord}
use infra_shelf.Common.Text.Split.{Lacks}
use infra_shelf.Common.Order.{str_lt}
use infra_shelf.Common.Dict.{lookup, insert}
use infra_shelf.Registry.{PostgresConfig}
use infra_shelf.Registry.Dotenv.{parse_dotenv}
use infra_shelf.Registry.Dotenv.Lines.{
  IsKey, IsPlain, Line, heading, entry, print_lines, IsLine, entries, parse_dotenv-join,
}
use infra_shelf.Registry.Env.{postgres_env}

-- closed texts are checked by evaluation
is_word : Bytes → Bool
is_word = all (λ c. not (is_space c))

is_key : Bytes → Bool
is_key k =
    all (λ c. not (is_space c) && not (c == b'=')) k
    && not (has_prefix (k ++ b'=' ∷ []) (b'#' ∷ []))

IsWord-of_is_word : (s : Bytes) → is_word s ≡ true → IsWord s
unfolding is_word
IsWord-of_is_word [] h = tt
IsWord-of_is_word (c ∷ s) h = ground (arith, IsWord-of_is_word s)

key_chars :
    (k : Bytes) → all (λ c. not (is_space c) && not (c == b'=')) k ≡ true → IsWord k × Lacks b'=' k
key_chars [] h = (tt, tt)
key_chars (c ∷ k) h = ground (arith, key_chars k)

IsKey-of_is_key : (k : Bytes) → is_key k ≡ true → IsKey k
unfolding is_key
IsKey-of_is_key k h =
    let (w, l) = key_chars k (ground arith) in
    record { word = w; no_equals = l; no_comment = ground arith }

postgres_entries : PostgresConfig → List Line
postgres_entries cfg =
    heading (codes " === PostgreSQL ===")
    ∷ entry (codes "DATABASE_URL") (
        codes "postgres://"
        ++ (cfg.username
            ++ (codes ":" ++ (cfg.password ++ (codes "@postgres:5432/" ++ cfg.database)))))
    ∷ entry (codes "DB_HOST") (codes "postgres")
    ∷ entry (codes "DB_PORT") (codes "5432")
    ∷ entry (codes "DB_USERNAME") cfg.username
    ∷ entry (codes "DB_PASSWORD") cfg.password
    ∷ entry (codes "DB_NAME") cfg.database
    ∷ []

postgres_printed :
    (cfg : PostgresConfig)
    → postgres_env cfg ≡ join (print_lines (postgres_entries cfg)) (b'\n' ∷ [])
unfolding postgres_env postgres_entries
postgres_printed cfg = refl

IsWord-append : (s t : Bytes) → IsWord s → IsWord t → IsWord (s ++ t)
IsWord-append s t = All-append (λ c. is_space c ≡ false) s t

-- The words of a configuration: what provisioning generates has no white space and no quotes.
pub record IsReadable (cfg : PostgresConfig) : Type 0 where
  pub username : IsPlain cfg.username
  pub password : IsPlain cfg.password
  pub database : IsPlain cfg.database

url-IsPlain :
    (cfg : PostgresConfig)
    → IsReadable cfg
    → IsPlain (
        codes "postgres://"
        ++ (cfg.username
            ++ (codes ":" ++ (cfg.password ++ (codes "@postgres:5432/" ++ cfg.database)))))
unfolding has_prefix is_word
url-IsPlain cfg h = record {
  word = IsWord-append (codes "postgres://") _ (IsWord-of_is_word (codes "postgres://") refl) (
      IsWord-append cfg.username _ h.username.word (
        IsWord-append (codes ":") _ (IsWord-of_is_word (codes ":") refl) (
          IsWord-append cfg.password _ h.password.word (
            IsWord-append (codes "@postgres:5432/") cfg.database
              (IsWord-of_is_word (codes "@postgres:5432/") refl) h.database.word))));
  no_double = refl;
  no_single = refl;
}

-- an entry whose key and value are closed texts
closed_entry :
    (k v : Bytes)
    → is_key k ≡ true
    → is_word v ≡ true
    → has_prefix v (b'"' ∷ []) ≡ false
    → has_prefix v (b'\'' ∷ []) ≡ false
    → IsLine (entry k v)
closed_entry k v hk hv d s =
    (IsKey-of_is_key k hk, record { word = IsWord-of_is_word v hv; no_double = d; no_single = s })

postgres_lines_valid : (cfg : PostgresConfig) → IsReadable cfg → All IsLine (postgres_entries cfg)
unfolding postgres_entries is_key is_word has_prefix trim_space
postgres_lines_valid cfg h =
    let host = closed_entry (codes "DB_HOST") (codes "postgres") refl refl refl refl in
    let port = closed_entry (codes "DB_PORT") (codes "5432") refl refl refl refl in
    let url = (IsKey-of_is_key (codes "DATABASE_URL") refl) in
    let user = (IsKey-of_is_key (codes "DB_USERNAME") refl) in
    let password = (IsKey-of_is_key (codes "DB_PASSWORD") refl) in
    let name = (IsKey-of_is_key (codes "DB_NAME") refl) in
    (
      (ground arith, refl),
      (
        (url, url-IsPlain cfg h),
        (host, (port, ((user, h.username), ((password, h.password), ((name, h.database), tt))))),
      ),
    )

-- The .env block of a PostgreSQL database, read by the parser of .env files, has the user, the
-- password and the database of the configuration, if these have no white space and no quote in
-- front.
pub parse_dotenv-postgres_env :
    (cfg : PostgresConfig)
    → IsReadable cfg
    → (lookup (codes "DB_USERNAME") (parse_dotenv (postgres_env cfg)) ≡ some cfg.username)
      × (lookup (codes "DB_PASSWORD") (parse_dotenv (postgres_env cfg)) ≡ some cfg.password)
      × (lookup (codes "DB_NAME") (parse_dotenv (postgres_env cfg)) ≡ some cfg.database)
unfolding entries lookup insert str_eq str_lt postgres_entries
parse_dotenv-postgres_env cfg h =
    rw
      (
        postgres_printed cfg,
        parse_dotenv-join (postgres_entries cfg) (cc) (postgres_lines_valid cfg h),
      )
      (refl, refl, refl)
