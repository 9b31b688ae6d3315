-- ===== src/DesiredState/Names.antt =====
-- agent/internal/desiredstate/names.go, and ScopedKey and EnvoyClusterName of runtime.go: the names
-- of containers and networks, and the keys of services.
pub mod Sanitized
pub mod Lengths
pub mod Containers
pub mod Keys
use devopsellence.Base.{
  ℕ, zero, suc, ◌+◌, ◌-◌, ◌/◌, ◌%◌, Bool, true, false, ◌&&◌, ◌||◌, List, [], ◌∷◌, ◌++◌, map, take,
  is_empty, Text, codes, ◌==◌, trim, trim_by, byte_len, leb, ltb, nat_eq, Result, ok, err, ◌>>=◌,
  ◌>>◌, reject_if, if◌then◌else◌,
}
use devopsellence.Plan.Schedule.{ascii_lower}

pub data NameError : Type 0 where
  service_name_empty revision_empty environment_name_empty : NameError
  container_name_too_long network_name_too_long : NameError

-- [a-z0-9_.-]
unfoldable pub is_safe : ℕ → Bool
is_safe c =
    (leb 97 c && leb c 122)
    || ((leb 48 c && leb c 57) || (nat_eq c 95 || (nat_eq c 46 || nat_eq c 45)))

-- sanitizeRe.ReplaceAllString(lower, "-"): a run of other characters becomes one dash.
unfoldable pub replace_unsafe : Bool → Text → Text
replace_unsafe in_run [] = []
replace_unsafe in_run (c ∷ s) =
    let kept = c ∷ replace_unsafe false s in
    let skipped = replace_unsafe true s in
    let dashed = 45 ∷ replace_unsafe true s in
    if is_safe c then kept else if in_run then skipped else dashed

-- strings.ReplaceAll of a doubled character by a single one, from the left and not overlapping.
unfoldable pub replace_pairs : ℕ → Text → Text
replace_pairs d [] = []
replace_pairs d (c ∷ []) = c ∷ []
replace_pairs d (c ∷ e ∷ s) =
    let halved = d ∷ replace_pairs d s in
    let kept = c ∷ replace_pairs d (e ∷ s) in if nat_eq c d && nat_eq e d then halved else kept

unfoldable pub is_dash_or_dot : ℕ → Bool
is_dash_or_dot c = nat_eq c 45 || nat_eq c 46

unfoldable pub sanitize : Text → Text
unfolding is_safe replace_unsafe replace_pairs is_dash_or_dot ascii_lower
sanitize input = replace_pairs 45 (
    replace_pairs 46 (trim_by is_dash_or_dot (replace_unsafe false (map ascii_lower (trim input)))))

unfoldable pub checked_name : Text → Result NameError Text
checked_name name = reject_if (ltb 255 (byte_len name)) container_name_too_long >> ok name

-- The hash is a text of single bytes, so that its first 8 bytes are its first 8 characters.
unfoldable pub container_name : (service_name revision hash : Text) → Result NameError Text
unfolding sanitize checked_name
container_name service_name revision hash = do
  let service = sanitize service_name
  reject_if (is_empty service) service_name_empty
  let rev = sanitize revision
  reject_if (is_empty rev) revision_empty
  checked_name (codes "svc-" ++ (service ++ 45 ∷ (rev ++ 45 ∷ take 8 hash)))

unfoldable pub service_container_name :
    (environment_name service_name revision hash : Text) → Result NameError Text
unfolding sanitize checked_name
service_container_name environment_name service_name revision hash = do
  let env = sanitize environment_name
  reject_if (is_empty env) environment_name_empty
  let service = sanitize service_name
  reject_if (is_empty service) service_name_empty
  let rev = sanitize revision
  reject_if (is_empty rev) revision_empty
  checked_name (codes "svc-" ++ (env ++ 45 ∷ (service ++ 45 ∷ (rev ++ 45 ∷ take 8 hash))))

unfoldable pub service_network_alias : Text → Result NameError Text
unfolding sanitize
service_network_alias service_name =
    reject_if (is_empty (sanitize service_name)) service_name_empty >> ok (sanitize service_name)

unfoldable pub environment_network_prefix : Text → Text
unfolding sanitize
environment_network_prefix base_network_name =
    let base = sanitize base_network_name in
    (if is_empty base then codes "devopsellence" else base) ++ codes "-env-"

-- The environment's part of a shortened name: at most `max` bytes, which are characters here.
unfoldable pub shorten : ℕ → Text → Text
unfolding is_dash_or_dot
shorten max env = if ltb max (byte_len env) then trim_by is_dash_or_dot (take max env) else env

-- `sha256_hex` is the hexadecimal SHA-256 of a text.
unfoldable pub environment_network_name :
    (sha256_hex : Text → Text) → (base_network_name environment_name : Text) → Result NameError Text
unfolding sanitize environment_network_prefix shorten
environment_network_name sha256_hex base_network_name environment_name = do
  let env = sanitize environment_name
  reject_if (is_empty env) environment_name_empty
  let prefix = environment_network_prefix base_network_name
  let suffix = take 8 (sha256_hex environment_name)
  let taken = byte_len prefix + byte_len suffix + 1
  let short = shorten (255 - taken) env
  if leb (byte_len (prefix ++ env)) 255
      then ok (prefix ++ env)
      else reject_if (leb 255 taken) network_name_too_long
        >> (reject_if (is_empty short) environment_name_empty
            >> ok (prefix ++ (short ++ 45 ∷ suffix)))

unfoldable pub envoy_cluster_name : (environment_name service_name port_name : Text) → Text
unfolding sanitize
envoy_cluster_name environment_name service_name port_name =
    sanitize (codes "env-" ++ (environment_name ++ 45 ∷ (service_name ++ 45 ∷ port_name)))

-- `%d` on a number below the fuel.
unfoldable pub decimal : ℕ → ℕ → Text
decimal zero n = []
decimal (suc fuel) n =
    let more = decimal fuel (n / 10) ++ (48 + n % 10) ∷ [] in
    if ltb n 10 then (48 + n) ∷ [] else more

unfoldable pub show_number : ℕ → Text
unfolding decimal
show_number n = decimal (suc n) n

unfoldable pub scoped_part : Text → Text
unfolding show_number
scoped_part part = let p = trim part in show_number (byte_len p) ++ 58 ∷ (p ++ 124 ∷ [])

unfoldable pub scoped_key : List Text → Text
unfolding scoped_part
scoped_key [] = []
scoped_key (part ∷ parts) = scoped_part part ++ scoped_key parts
