-- ===== src/Config.antt =====
-- ConfigLib/ConfigLib.cpp: how the configuration of an application is put together from its own
-- section, its group's and the system's. A JSON object is a map from names to values; the values and
-- the conversions of the JSON library are parameters. `none` from outside is an exception: `at` on an
-- absent name, or a value of another kind.
pub mod Merging
pub mod Creating
pub mod Updating
mod Loading
mod Tests
use multi_market_prices.Prelude.{
  Bool, true, false, not, ◌&&◌, Option, none, some, List, [], ◌∷◌, String, string_eq, string_dec,
  ◌==◌, if◌then◌else◌, is_some, Map, lookup, assign,
}

-- `as_object`, `as_string` (`none` where they throw), and a text as a value.
pub record Values (V : Type 0) : Type 0 where
  pub as_object : V → Option (Map String V)
  pub as_string : V → Option String
  pub of_string : String → V

abbrev pub Object : Type 0 → Type 0
Object V = Map String V

abbrev pub has : {V : Type 0} → String → Object V → Bool
has name obj = is_some (lookup name obj)

-- The loop over `app`, and the loops over `group` and `system`.
unfoldable pub set_all : {V : Type 0} → Object V → Object V → Object V
set_all [] res = res
set_all ((k, v) ∷ m) res = set_all m (assign k v res)

unfoldable pub set_missing : {V : Type 0} → Object V → Object V → Object V
set_missing [] res = res
set_missing ((k, v) ∷ m) res = set_missing m (if has k res then res else assign k v res)

unfoldable pub merge : {V : Type 0} → Object V → Object V → Object V → Object V
unfolding set_all set_missing
merge app group system = set_missing system (set_missing group (set_all app []))

abbrev pub mandatory_tags : List String
mandatory_tags =
    "brokers" ∷ "hearbeatInterval" ∷ "hearbeatTimeout" ∷ "numMaxBrokers" ∷ "numMinBrokers"
    ∷ "logLevel" ∷ "registrationsTopic" ∷ "heartbeatsTopic" ∷ "statusTopic" ∷ "syncDataRequestTopic"
    ∷ "syncDataTopic" ∷ []

unfoldable pub has_all : {V : Type 0} → List String → Object V → Bool
has_all [] obj = true
has_all (tag ∷ tags) obj = if has tag obj then has_all tags obj else false

unfoldable pub check_mandatory_tags_present : {V : Type 0} → Object V → Bool
unfolding has_all
check_mandatory_tags_present obj = has_all mandatory_tags obj

abbrev pub and_then : {A B : Type 0} → Option A → (A → Option B) → Option B
and_then none f = none
and_then (some a) f = f a

module _ {V : Type 0} (values : Values V) where
  -- `obj.at(name).as_object()` and `obj.at(name).as_string()`
  abbrev pub object_at : String → Object V → Option (Object V)
  object_at name obj = and_then (lookup name obj) values.as_object

  abbrev pub string_at : String → Object V → Option String
  string_at name obj = and_then (lookup name obj) values.as_string

  unfoldable pub flatten : Object V → String → Option (Object V)
  unfolding merge
  flatten config app_id = and_then (object_at "system" config) (λ system_obj.
      and_then (object_at "groups" config) (λ groups_obj.
        and_then (object_at "apps" config) (λ apps_obj.
          and_then (object_at app_id apps_obj) (λ app_obj.
            and_then (string_at "group" app_obj) (λ app_group.
              and_then (object_at app_group groups_obj)
                (λ group_obj. some (merge app_obj group_obj system_obj)))))))

  unfoldable pub validate : Object V → String → Option Bool
  validate obj app_id =
      if not (has "groups" obj)
      then some false
      else if not (has "apps" obj)
      then some false
      else and_then (object_at "apps" obj) (λ apps. and_then (object_at "groups" obj) (λ groups.
        if not (has app_id apps)
        then some false
        else and_then (object_at app_id apps) (λ app_section.
          if not (has "group" app_section)
          then some false
          else and_then (string_at "group" app_section) (λ group. some (has group groups)))))

  -- `loaded` is what `load_json` returns.
  unfoldable pub create_config : Option (Object V) → String → Option (Option (Object V))
  unfolding validate flatten check_mandatory_tags_present
  create_config none app_id = some none
  create_config (some config) app_id = and_then (validate config app_id) (λ valid.
      if not valid
      then some none
      else and_then (flatten config app_id) (λ flattenned.
        if check_mandatory_tags_present flattenned
        then some (some (assign "appId" (values.of_string app_id) flattenned))
        else some none))
