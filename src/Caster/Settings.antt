-- ===== src/Caster/Settings.antt =====
-- The configuration of main/ntrip_caster.c: load_cfg_string, sanitize_sourcetable_field and
-- load_caster_config. Each text is kept without its final NUL.
use Prim.Native.String.{String}
use rtkbase.Prelude.{
  ℕ, Bool, true, false, not, ◌||◌, List, [], ◌∷◌, Option, none, some, take, ◌==◌, if◌then◌else◌,
  ◌>>=◌,
}
use rtkbase.CText.{codes}
use rtkbase.Nvs.{Nvs}
use rtkbase.Config.Store.{cfg_get_u16, cfg_get_str}

-- `caster_config_t`.
pub record CasterConfig : Type 0 where
  pub loaded : Bool
  pub auth_required : Bool
  pub port : ℕ
  pub mountpoint : List ℕ
  pub identifier : List ℕ
  pub username : List ℕ
  pub password : List ℕ

unfoldable pub sanitize_sourcetable_field : List ℕ → List ℕ
sanitize_sourcetable_field [] = []
sanitize_sourcetable_field (c ∷ value) =
    let rest = sanitize_sourcetable_field value in
    (if c == b';' || c == 13 || c == 10 then b'_' else c) ∷ rest

abbrev default_identifier : List ℕ
default_identifier = codes "RTK Base"

-- The name for the sourcetable, from what was read.
unfoldable pub identifier_of : Option (List ℕ) → List ℕ
unfolding sanitize_sourcetable_field
identifier_of none = sanitize_sourcetable_field default_identifier
identifier_of (some []) = sanitize_sourcetable_field default_identifier
identifier_of (some (c ∷ name)) = sanitize_sourcetable_field (c ∷ name)

abbrev is_empty : List ℕ → Bool
is_empty [] = true
is_empty (c ∷ text) = false

-- The configuration from what was read; `none` is false. Only the identifier has a default.
unfoldable pub config_of :
    Option ℕ
    → Option (List ℕ)
    → Option (List ℕ)
    → Option (List ℕ)
    → Option (List ℕ)
    → Option CasterConfig
unfolding identifier_of
config_of port mountpoint name username password = port >>= (λ port. mountpoint >>= (λ mountpoint.
    username >>= (λ username. password >>= (λ password. some (record {
      loaded = true;
      auth_required = not (is_empty password);
      port = port;
      mountpoint = mountpoint;
      identifier = identifier_of name;
      username = username;
      password = password;
    })))))

module _ (nvs : Nvs) where
  open nvs use {Store}

  -- `strlcpy` into an array of `size` bytes.
  unfoldable pub load_cfg_string : Store → String → ℕ → Option (Option (List ℕ))
  unfolding cfg_get_str
  load_cfg_string s key longest =
      cfg_get_str nvs s key >>= (λ found. some (found >>= (λ text. some (take longest text))))

  -- The outer `none` is the abort of a read.
  unfoldable pub load_caster_config : Store → Option (Option CasterConfig)
  unfolding cfg_get_u16 load_cfg_string config_of
  load_caster_config s = cfg_get_u16 nvs s "caster_port" >>= (λ port.
      load_cfg_string s "caster_mp" 32 >>= (λ mountpoint.
        load_cfg_string s "host_name" 32 >>= (λ name.
          load_cfg_string s "caster_user" 32 >>= (λ username.
            load_cfg_string s "caster_pass" 64
            >>= (λ password. some (config_of port mountpoint name username password))))))
