-- ===== src/Agents/Logins.antt =====
-- Harness logins kept by name: agentctl/src/harness/login.rs. A name is the list of its bytes.
pub mod Order
pub mod Least
pub mod Chosen
pub mod Written
use digdir_agents.Base.{
  ltb, leb, ◌==◌, codes, if◌then◌else◌, length, filter_by, last?, every, Str, same_text,
  list_is_empty, get, Result, err, ok, ensure, ◌>>=◌, ◌>>◌, ℕ, Bool, true, false, not, ◌&&◌, ◌||◌,
  Option, none, some, List, [], ◌∷◌, ◌++◌, map,
}
use digdir_agents.Authorization.{to_lower}
use digdir_agents.Service.Request.{value_or, is_ascii_alphabetic, is_decimal}
use digdir_agents.Service.Platform.{has_text}
use digdir_agents.Agents.Errors.{said, Error, invalid}

-- `LoginSet::ANY`, `LoginName::DEFAULT` and `LoginName::MAX_LENGTH`.
abbrev pub any_login : Str
any_login = codes "any"

abbrev pub default_login : Str
default_login = codes "default"

abbrev pub max_login_length : ℕ
max_login_length = 64

-- `str::eq_ignore_ascii_case`.
unfoldable pub same_ignoring_case : Str → Str → Bool
same_ignoring_case a b = same_text (map to_lower a) (map to_lower b)

abbrev pub is_hyphen : Option ℕ → Bool
is_hyphen none = false
is_hyphen (some b) = b == b'-'

abbrev pub first? : Str → Option ℕ
first? [] = none
first? (b ∷ _) = some b

-- `u8::is_ascii_alphanumeric`.
unfoldable pub is_ascii_alphanumeric : ℕ → Bool
is_ascii_alphanumeric b = is_ascii_alphabetic b || is_decimal b

-- The length and the spelling that `LoginName::new` asks for.
unfoldable pub well_spelled : Str → Bool
well_spelled value =
    not (list_is_empty value)
    && leb (length value) max_login_length
    && not (is_hyphen (first? value))
    && not (is_hyphen (last? value))
    && every (λ b. is_ascii_alphanumeric b || (b == b'-')) value

abbrev pub named_any : Error
named_any =
    invalid (said (codes "a login cannot be named \"any\", which manifests use for any login"))

abbrev pub misspelled : Error
misspelled =
    invalid (said (codes "a login name must be 1-64 ASCII letters, digits and inner hyphens"))

-- `LoginName::new`.
unfoldable pub new_login : Str → Result Error Str
new_login value =
    if same_ignoring_case value any_login
    then err named_any
    else if well_spelled value
    then ok value
    else err misspelled

-- `LoginName::is_default`.
unfoldable pub login_is_default : Str → Bool
login_is_default login = same_text login default_login

-- `LoginSet`, with its `Logins`.
pub data LoginSet : Type 0 where
  named : (logins : List Str) → LoginSet
  any_stored : LoginSet

-- `LoginSet::one`.
unfoldable pub one_login : Str → LoginSet
one_login login = named (login ∷ [])

-- A set of the texts of a list: `BTreeSet::from_iter`, without its order.
unfoldable pub unique : List Str → List Str
unique [] = []
unique (t ∷ ts) = let rest = unique ts in if has_text t rest then rest else t ∷ rest

-- `LoginSet::among`.
unfoldable pub among : List Str → Result Error LoginSet
among logins = do
  ensure (not (list_is_empty logins || not (length (unique logins) == length logins)))
      (invalid (said (codes "a list of logins must name at least one, each once")))
  ok (named logins)

-- `LoginSet::first`.
unfoldable pub first_login : LoginSet → Option Str
first_login (named []) = none
first_login (named (login ∷ _)) = some login
first_login any_stored = none

-- `LoginSet::single`.
unfoldable pub single_login : LoginSet → Option Str
single_login (named (login ∷ [])) = some login
single_login (named []) = none
single_login (named (_ ∷ _ ∷ _)) = none
single_login any_stored = none

-- `LoginSet::is_default`.
unfoldable pub set_is_default : LoginSet → Bool
set_is_default (named (login ∷ [])) = login_is_default login
set_is_default (named []) = false
set_is_default (named (_ ∷ _ ∷ _)) = false
set_is_default any_stored = false

-- The derived order of texts.
unfoldable pub text_leb : Str → Str → Bool
text_leb [] _ = true
text_leb (_ ∷ _) [] = false
text_leb (a ∷ xs) (b ∷ bs) = ltb a b || ((a == b) && text_leb xs bs)

module _ (le : Str → Str → Bool) where
  unfoldable pub insert_by : Str → List Str → List Str
  insert_by t [] = t ∷ []
  insert_by t (u ∷ us) = let rest = insert_by t us in if le t u then t ∷ u ∷ us else u ∷ rest

  -- `sort` and `sort_by_key`, which are stable.
  unfoldable pub sort_by : List Str → List Str
  sort_by [] = []
  sort_by (t ∷ ts) = insert_by t (sort_by ts)

-- How many running agents use a login: `in_use.get(login)`, or 0.
unfoldable pub uses : List (Str × ℕ) → Str → ℕ
uses in_use login = value_or 0 (get same_text login in_use)

unfoldable pub candidates : LoginSet → List Str → List Str
candidates (named logins) stored = filter_by (λ login. has_text login stored) logins
candidates any_stored stored = sort_by text_leb stored

-- `Option::filter`.
abbrev pub filter_option : (Str → Bool) → Option Str → Option Str
filter_option p none = none
filter_option p (some t) = if p t then some t else none

abbrev pub head_of : List Str → Option Str
head_of [] = none
head_of (t ∷ _) = some t

abbrev pub or_else : Option Str → Option Str → Option Str
or_else (some t) _ = some t
or_else none other = other

-- `LoginSet::choose`.
unfoldable pub choose : LoginSet → List Str → Option Str → List (Str × ℕ) → Option Str
choose set stored current in_use =
    or_else (filter_option (λ login. has_text login (candidates set stored)) current)
      (head_of (sort_by (λ a b. leb (uses in_use a) (uses in_use b)) (candidates set stored)))

-- How a manifest writes a set: one text, or a list of texts.
pub data Declared : Type 0 where
  one_text : Str → Declared
  texts : List Str → Declared

-- `LoginSet::serialize`.
unfoldable pub serialize_logins : LoginSet → Declared
serialize_logins (named (login ∷ [])) = one_text login
serialize_logins (named []) = texts []
serialize_logins (named (a ∷ b ∷ rest)) = texts (a ∷ b ∷ rest)
serialize_logins any_stored = one_text any_login

-- `map(LoginName::new)`, collected.
unfoldable pub new_logins : List Str → Result Error (List Str)
new_logins [] = ok []
new_logins (name ∷ names) = do
  login ← new_login name
  logins ← new_logins names
  ok (login ∷ logins)

-- `LoginSet::deserialize`, of what was declared.
unfoldable pub deserialize_logins : Declared → Result Error LoginSet
deserialize_logins (one_text name) =
    if same_text name any_login
    then ok any_stored
    else (new_login name >>= λ login. ok (one_login login))
deserialize_logins (texts names) = do logins ← new_logins names; among logins

-- `LoginStore::secret`.
unfoldable pub secret_name : Str → Str → Str
secret_name secret login = secret ++ b'/' ∷ login

-- `str::strip_prefix`.
unfoldable pub strip_prefix : Str → Str → Option Str
strip_prefix [] t = some t
strip_prefix (_ ∷ _) [] = none
strip_prefix (a ∷ prefix) (b ∷ t) =
    let rest = strip_prefix prefix t in if a == b then rest else none

abbrev pub ok_login : Result Error Str → Option Str
ok_login (ok login) = some login
ok_login (err _) = none

abbrev pub then_login : Option Str → Option Str
then_login none = none
then_login (some name) = ok_login (new_login name)

abbrev pub after_slash : Option Str → Option Str
after_slash none = none
after_slash (some t) = strip_prefix (codes "/") t

-- `LoginStore::login_of`.
unfoldable pub login_of : Str → Str → Option Str
login_of secret reference = then_login (after_slash (strip_prefix secret reference))
