-- ===== src/Platform.antt =====
-- The parts of Go's standard library that the model takes as parameters, and the time of package
-- time. An instant is its count of nanoseconds since 31 December of the year before year 0, which
-- is before every instant that an RFC 3339 text can denote.
use assurectl.Prelude.{ℕ, ◌-◌, ◌*◌, ◌^◌, String, Bool, Option, eqb, ltb, min}

-- What `url.Parse` returns, as far as it is read. `user` holds the user name, and whether a
-- password follows it.
pub record Url : Type 0 where
  pub scheme : String
  pub user : Option (String × Bool)
  pub hostname : String
  pub port : String
  pub path : String
  pub raw_query : String
  pub fragment : String

pub record Platform : Type 0 where
  -- the verb %q of package fmt
  pub quote : String → String
  -- `strings.ToLower`
  pub to_lower : String → String
  -- `strings.ToUpper`
  pub to_upper : String → String
  -- `url.Parse`
  pub parse_url : String → Option Url
  -- `time.Parse(time.RFC3339Nano, s)`; the layout `time.RFC3339` accepts the same texts
  pub parse_time : String → Option ℕ
  -- `t.UTC().Format(time.RFC3339)`
  pub format_time : ℕ → String
  -- the hexadecimal digits of `sha256.Sum256`
  pub sha256_hex : String → String

abbrev pub second : ℕ
second = 1000000000

-- `time.Time{}`: 1 January of year 1
abbrev pub zero_time : ℕ
zero_time = 31708800 * second

abbrev pub is_zero : ℕ → Bool
is_zero t = eqb t zero_time

abbrev pub after : ℕ → ℕ → Bool
after t u = ltb u t

abbrev pub before : ℕ → ℕ → Bool
before t u = ltb t u

-- The largest `time.Duration`, an int64 of nanoseconds.
abbrev pub max_duration : ℕ
max_duration = 2 ^ 63 - 1

-- `t.Sub(u)` at instants with u ≤ t: a difference that does not fit saturates.
unfoldable pub sub : ℕ → ℕ → ℕ
sub t u = min (t - u) max_duration
