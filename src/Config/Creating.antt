-- ===== src/Config/Creating.antt =====
-- ConfigLib/ConfigLib.cpp, `createConfig`: what a configuration that is returned holds, and when the
-- flattening of a valid one throws.
use multi_market_prices.Prelude.{
  Bool, if◌then◌else◌, contains, string_dec, ◌≡◌, refl, sym, ap, ◌∙◌, true, false, ◌&&◌, ◌||◌,
  Option, none, some, List, [], ◌∷◌, map, String, string_eq, ◌==◌, lookup, assign, lookup-assign,
  is_some, keys, IsDistinct, arith,
}
use multi_market_prices.Constants.Settings.{ConfigTag, config_tag_text}
use multi_market_prices.Config.{
  Object, Values, and_then, has, merge, mandatory_tags, has_all, check_mandatory_tags_present,
  object_at, string_at, flatten, validate, create_config,
}
use multi_market_prices.Config.Merging.{or_else, lookup-merge}

-- A setting of another name changes nothing for a list of tags.
has_all-assign :
    {V : Type 0} (tags : List String) (k : String) (v : V) (obj : Object V)
    → contains k tags ≡ false
    → has_all tags (assign k v obj) ≡ has_all tags obj
unfolding has_all contains
has_all-assign [] k v obj h = refl
has_all-assign (tag ∷ tags) k v obj h =
    ground (arith, h, lookup-assign k tag v obj, has_all-assign tags k v obj (ground (arith, h)))

some_if :
    {A : Type 0} (b : Bool) (a : A)
    → (if b then some (some a) else some none) ≡ some (if b then some a else none)
some_if true a = refl
some_if false a = refl

no_app_id : contains "appId" mandatory_tags ≡ false
unfolding contains string_dec
no_app_id = refl

module _ {V : Type 0} (values : Values V) where
  no_system :
      (config : Object V) (app_id : String)
      → object_at values "system" config ≡ none
      → flatten values config app_id ≡ none
  unfolding flatten
  no_system config app_id h = rw h refl

  -- `validate` does not look at the system section: for a configuration that it accepts without one,
  -- `createConfig` throws instead of reporting an invalid configuration.
  pub create_config_throws :
      (config : Object V) (app_id : String)
      → validate values config app_id ≡ some true
      → lookup "system" config ≡ none
      → create_config values (some config) app_id ≡ none
  unfolding create_config
  create_config_throws config app_id v h = rw (v, no_system config app_id (rw h refl)) refl

  create_config-flatten :
      (config : Object V) (app_id : String) (flat : Object V)
      → validate values config app_id ≡ some true
      → flatten values config app_id ≡ some flat
      → (res : Object V) × (create_config values (some config) app_id
          ≡ some (if has_all mandatory_tags res then some res else none))
        × ((k : String)
            → lookup k res
              ≡ (if "appId" == k then some (values.of_string app_id) else lookup k flat))
        × (has_all mandatory_tags res ≡ check_mandatory_tags_present flat)
  unfolding create_config check_mandatory_tags_present
  create_config-flatten config app_id flat v f =
      let kept = has_all-assign mandatory_tags "appId" (values.of_string app_id) flat no_app_id in
      (
        assign "appId" (values.of_string app_id) flat,
        rw (v, f, kept) (some_if (has_all mandatory_tags flat) _),
        λ k. lookup-assign "appId" k (values.of_string app_id) flat,
        kept,
      )

-- The settings that an application cannot do without.
abbrev pub required : List ConfigTag
required =
    ConfigTag.brokers ∷ ConfigTag.hearbeat_interval ∷ ConfigTag.hearbeat_timeout
    ∷ ConfigTag.num_max_brokers ∷ ConfigTag.num_min_brokers ∷ ConfigTag.log_level
    ∷ ConfigTag.registrations_topic ∷ ConfigTag.heartbeats_topic ∷ ConfigTag.status_topic
    ∷ ConfigTag.sync_data_request_topic ∷ ConfigTag.sync_data_topic ∷ []

-- Each of some settings stands in one of the three sections.
abbrev pub all_given : {V : Type 0} → Object V → Object V → Object V → List ConfigTag → Bool
all_given app group system [] = true
all_given app group system (tag ∷ tags) =
    let name = config_tag_text tag in
    (has name app || (has name group || has name system)) && all_given app group system tags

is_some-or_else : {A : Type 0} (o p : Option A) → is_some (or_else o p) ≡ (is_some o || is_some p)
is_some-or_else none p = refl
is_some-or_else (some a) p = refl

-- What was found was there.
is_some-and_then :
    {A B : Type 0} (o : Option A) (f : A → Option B) (b : B)
    → and_then o f ≡ some b
    → is_some o ≡ true
is_some-and_then none f b e = ground (arith, e)
is_some-and_then (some a) f b e = refl

module _ {V : Type 0} (app group system : Object V) where
  -- Where a setting comes from.
  abbrev pub setting : String → Option V
  setting name = or_else (lookup name app) (or_else (lookup name group) (lookup name system))

  has-merge :
      (name : String)
      → IsDistinct (keys app)
      → has name (merge app group system) ≡ (has name app || (has name group || has name system))
  has-merge name d = rw (lookup-merge app group system name d) (
      rw
        (
          is_some-or_else (lookup name app) (or_else (lookup name group) (lookup name system)),
          is_some-or_else (lookup name group) (lookup name system),
        )
        refl)

  has_all-merge :
      (tags : List ConfigTag)
      → IsDistinct (keys app)
      → has_all (map config_tag_text tags) (merge app group system)
        ≡ all_given app group system tags
  unfolding has_all
  has_all-merge [] d = refl
  has_all-merge (tag ∷ tags) d =
      ground (arith, has-merge (config_tag_text tag) d, has_all-merge tags d)

  check_mandatory_tags_present-merge :
      IsDistinct (keys app)
      → check_mandatory_tags_present (merge app group system) ≡ all_given app group system required
  unfolding check_mandatory_tags_present
  check_mandatory_tags_present-merge d = has_all-merge required d

module _ {V : Type 0} (values : Values V) (config : Object V) (app_id : String) where
  -- The sections that stand in a configuration for an application: what is under `system`, `groups` and
  -- `apps`, the application's own among these, its group's name and the section of this group.
  pub record IsLaidOut (app group system : Object V) : Type 0 where
    pub groups : Object V
    pub apps : Object V
    pub group_name : String
    pub has_system : object_at values "system" config ≡ some system
    pub has_groups : object_at values "groups" config ≡ some groups
    pub has_apps : object_at values "apps" config ≡ some apps
    pub has_app : object_at values app_id apps ≡ some app
    pub has_group_name : string_at values "group" app ≡ some group_name
    pub has_group : object_at values group_name groups ≡ some group

  module _ (app group system : Object V) (l : IsLaidOut app group system) where
    flatten-IsLaidOut : flatten values config app_id ≡ some (merge app group system)
    unfolding flatten
    flatten-IsLaidOut =
        rw (l.has_system, l.has_groups, l.has_apps, l.has_app, l.has_group_name, l.has_group) refl

    validate-IsLaidOut : validate values config app_id ≡ some true
    unfolding validate
    validate-IsLaidOut =
        rw
          (
            is_some-and_then (lookup "groups" config) values.as_object l.groups l.has_groups,
            is_some-and_then (lookup "apps" config) values.as_object l.apps l.has_apps,
            l.has_apps,
            l.has_groups,
            is_some-and_then (lookup app_id l.apps) values.as_object app l.has_app,
            l.has_app,
            is_some-and_then (lookup "group" app) values.as_string l.group_name l.has_group_name,
            l.has_group_name,
            is_some-and_then (lookup l.group_name l.groups) values.as_object group l.has_group,
          )
          refl

    -- For a configuration that has the sections of the system, of the application and of its group,
    -- where the application's section names no setting twice: the result holds the id of the
    -- application under `appId`, and every other setting from the application's section if it stands
    -- there, else from its group's, else from the system's. It is returned if each of the eleven
    -- required settings stands in one of the three sections, and otherwise failure is reported; no
    -- exception is thrown.
    pub create_config_lem :
        IsDistinct (keys app)
        → (res : Object V) × (create_config values (some config) app_id
            ≡ some (if all_given app group system required then some res else none))
          × ((name : String)
              → lookup name res ≡ (
                  if "appId" == name
                  then some (values.of_string app_id)
                  else setting app group system name))
    create_config_lem d =
        let (res, made, settings, kept) =
          create_config-flatten values config app_id (merge app group system) validate-IsLaidOut
            flatten-IsLaidOut in
        (
          res,
          made
              ∙ ap (λ b. some (if b then some res else none))
                  (kept ∙ check_mandatory_tags_present-merge app group system d),
          λ name. rw (sym (lookup-merge app group system name d)) (settings name),
        )
