-- ===== src/Hive.antt =====
-- app/hive_manager.py: registering a sensor's login in the Hive's lswebpasswd and .env. The files
-- are lists of lines, with no space at their ends, and of the tokens of LS_WEB_USER. A token is the text that it encodes
-- in base64, or one that does not decode. Failing reads and writes of the files are not modelled.
pub mod Logins
use t_pot_sensor_deployer.Prelude.{
  String, Bool, true, false, not, Option, none, some, List, [], ◌∷◌, ◌++◌, ◌==◌, if◌then◌else◌,
  string_key, starts_with, any_of, keep,
}
use Prim.Native.String.{◌++◌ as append}

pub data Token : Type 0 where
  base64 : String → Token
  undecodable : String → Token

abbrev pub token_beq : Token → Token → Bool
token_beq (base64 s) (base64 t) = s == t
token_beq (undecodable s) (undecodable t) = s == t
token_beq _ _ = false

-- The values of `generate_sensor_credentials`; `tpot_hive_user` is what the sensor ships logs with.
pub record Creds : Type 0 where
  pub username : String
  pub password : String
  pub htpasswd_line : String
  pub tpot_hive_user : String

-- `none` is a missing file, or a missing LS_WEB_USER line.
pub record Hive : Type 0 where
  pub installed : Bool
  pub env_file : Bool
  pub lswebpasswd : Option (List String)
  pub ls_web_user : Option (List Token)

-- `line.startswith(f"{username}:")`
unfoldable pub of_user : String → String → Bool
of_user username line = starts_with line (append username ":")

unfoldable pub lines : Option (List String) → List String
lines none = []
lines (some ls) = ls

with_token : Token → Option (List Token) → List Token
with_token t none = t ∷ []
with_token t (some ts) = if any_of (λ u. token_beq u t) ts then ts else ts ++ t ∷ []

-- True with the new files, or False where there is no Hive.
unfoldable pub register_sensor : Creds → Hive → Hive × Bool
unfolding of_user lines with_token
register_sensor creds h = if not h.installed then (h, false) else (
  record h {
    lswebpasswd = some (
        keep (λ l. not (of_user creds.username l)) (lines h.lswebpasswd)
        ++ creds.htpasswd_line ∷ []);
    ls_web_user =
        if h.env_file
        then some (with_token (base64 creds.htpasswd_line) h.ls_web_user)
        else h.ls_web_user;
  },
  true,
)

unfoldable pub token_of_user : String → Token → Bool
unfolding of_user
token_of_user username (base64 decoded) = of_user username decoded
token_of_user username (undecodable t) = false

without_token : String → Option (List Token) → Option (List Token)
unfolding token_of_user
without_token username none = none
without_token username (some ts) = some (keep (λ t. not (token_of_user username t)) ts)

-- The code tests a line as it stands and keeps it stripped, which is the same for such lines.
without_lines : String → Option (List String) → Option (List String)
unfolding of_user
without_lines username none = none
without_lines username (some ls) = some (keep (λ l. not (of_user username l)) ls)

unfoldable pub deregister_sensor : String → Hive → Hive
unfolding without_lines without_token
deregister_sensor username h = record h {
  lswebpasswd = without_lines username h.lswebpasswd;
  ls_web_user = if h.env_file then without_token username h.ls_web_user else h.ls_web_user;
}

-- A user who can log in: `lswebpasswd` has a line for the name.
unfoldable pub has_login : String → Hive → Bool
unfolding of_user lines
has_login username h = any_of (of_user username) (lines h.lswebpasswd)

unfoldable pub tokens : Option (List Token) → List Token
tokens none = []
tokens (some ts) = ts

-- The Hive's copy of the users, in LS_WEB_USER.
unfoldable pub has_token : String → Hive → Bool
unfolding token_of_user tokens
has_token username h = any_of (token_of_user username) (tokens h.ls_web_user)
