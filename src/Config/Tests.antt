-- ===== src/Config/Tests.antt =====
-- ConfigLib/ConfigLib.cpp: tests of the configuration, and its theorems at concrete inputs.
use multi_market_prices.Prelude.{
  if◌then◌else◌, ◌≡◌, refl, true, none, some, [], ◌∷◌, String, string_eq, string_dec, ◌==◌, Map,
  keys, lookup, assign, contains, IsDistinct,
}
use multi_market_prices.Config.{
  Values, Object, merge, set_all, set_missing, has_all, check_mandatory_tags_present, flatten,
  validate, create_config, has_all,
}
use multi_market_prices.Config.Merging.{or_else, lookup-merge}
use multi_market_prices.Config.Creating.{required, all_given, setting, IsLaidOut, create_config_lem}

-- A value is a text, and some texts name an object.
abbrev objects : Map String (Object String)
objects =
    ("apps!", ("gw", "gw!") ∷ [])
    ∷ ("gw!", ("group", "md") ∷ ("logLevel", "DEBUG") ∷ [])
    ∷ ("groups!", ("md", "md!") ∷ [])
    ∷ ("md!", ("statusTopic", "status") ∷ ("logLevel", "INFO") ∷ [])
    ∷ (
      "system!",
      ("brokers", "b")
          ∷ ("hearbeatInterval", "5")
          ∷ ("hearbeatTimeout", "30")
          ∷ ("numMaxBrokers", "3")
          ∷ ("numMinBrokers", "1")
          ∷ ("registrationsTopic", "r")
          ∷ ("heartbeatsTopic", "h")
          ∷ ("syncDataRequestTopic", "q")
          ∷ ("syncDataTopic", "d")
          ∷ [],
    )
    ∷ []

abbrev texts : Values String
texts = record { as_object = λ v. lookup v objects; as_string = λ v. some v; of_string = λ s. s }

abbrev config : Object String
config = ("apps", "apps!") ∷ ("groups", "groups!") ∷ ("system", "system!") ∷ []

abbrev without_system : Object String
without_system = ("apps", "apps!") ∷ ("groups", "groups!") ∷ []

program : Unit {0}
unfolding lookup assign contains string_dec merge set_all set_missing flatten validate create_config
    check_mandatory_tags_present has_all
program = tt

abbrev own : Object String
own = ("group", "md") ∷ ("logLevel", "DEBUG") ∷ []

own-IsDistinct : IsDistinct (keys own)
unfolding program
own-IsDistinct = (refl, (refl, tt))

abbrev of_group : Object String
of_group = ("logLevel", "INFO") ∷ []

abbrev of_system : Object String
of_system = ("brokers", "b") ∷ []

lookup-merge_example :
    lookup "logLevel" (merge own of_group of_system)
    ≡ or_else
        (lookup "logLevel" own)
        (or_else (lookup "logLevel" of_group) (lookup "logLevel" of_system))
lookup-merge_example = lookup-merge own of_group of_system "logLevel" own-IsDistinct

abbrev md : Object String
md = ("statusTopic", "status") ∷ ("logLevel", "INFO") ∷ []

abbrev common : Object String
common =
    ("brokers", "b")
    ∷ ("hearbeatInterval", "5")
    ∷ ("hearbeatTimeout", "30")
    ∷ ("numMaxBrokers", "3")
    ∷ ("numMinBrokers", "1")
    ∷ ("registrationsTopic", "r")
    ∷ ("heartbeatsTopic", "h")
    ∷ ("syncDataRequestTopic", "q")
    ∷ ("syncDataTopic", "d")
    ∷ []

config-IsLaidOut : IsLaidOut texts config "gw" own md common
unfolding program
config-IsLaidOut = record {
  groups = ("md", "md!") ∷ [];
  apps = ("gw", "gw!") ∷ [];
  group_name = "md";
  has_system = refl;
  has_groups = refl;
  has_apps = refl;
  has_app = refl;
  has_group_name = refl;
  has_group = refl;
}

all_are_given : all_given own md common required ≡ true
unfolding program
all_are_given = refl

create_config_lem_example :
    (res : Object String) × (create_config texts (some config) "gw"
      ≡ some (if all_given own md common required then some res else none))
    × ((name : String)
        → lookup name res ≡ (if "appId" == name then some "gw" else setting own md common name))
create_config_lem_example =
    create_config_lem texts config "gw" own md common config-IsLaidOut own-IsDistinct

without_system_valid : validate texts without_system "gw" ≡ some true
unfolding program
without_system_valid = refl

without_system_lem : lookup "system" without_system ≡ none
unfolding program
without_system_lem = refl
