-- ===== src/Statistics.antt =====
-- statistics/statistics.go: the keys of the statistics, and how they are read back.
pub mod RoundTrip
pub mod Table
use datafoundry_proxy.Base.{
  ℕ, Bool, true, false, List, [], ◌∷◌, ◌++◌, Option, none, some, Str, codes, onto_first, ◌==◌,
  if◌then◌else◌,
}

-- strings.Join(words, "/")
unfoldable pub get_general_stat_key : List Str → Str
get_general_stat_key [] = []
get_general_stat_key (w ∷ []) = w
get_general_stat_key (w ∷ v ∷ l) = w ++ b'/' ∷ get_general_stat_key (v ∷ l)

-- The format "%s#%s" of the functions below.
unfoldable pub stat_key : Str → List Str → Str
stat_key name words = get_general_stat_key words ++ b'#' ∷ name

abbrev pub get_version_key : List Str → Str
get_version_key words = stat_key (codes "version") words

abbrev pub get_phase_key : List Str → Str
get_phase_key words = stat_key (codes "phase") words

abbrev pub get_subscriptions_stat_key : List Str → Str
get_subscriptions_stat_key words = stat_key (codes "subs") words

abbrev pub get_subscription_plan_signing_times_stat_key : List Str → Str
get_subscription_plan_signing_times_stat_key words = stat_key (codes "sgns") words

abbrev pub get_transactions_stat_key : List Str → Str
get_transactions_stat_key words = stat_key (codes "txns") words

abbrev pub get_stars_stat_key : List Str → Str
get_stars_stat_key words = stat_key (codes "strs") words

abbrev pub get_comments_stat_key : List Str → Str
get_comments_stat_key words = stat_key (codes "cmts") words

unfoldable pub get_user_item_stat_key : Str → Str → Str
get_user_item_stat_key username item_stat_key = username ++ b'$' ∷ item_stat_key

unfoldable pub get_user_subscription_plan_signing_times_stat_key : Str → Str → Str → Str → Str
get_user_subscription_plan_signing_times_stat_key user repo item plan =
    get_user_item_stat_key user
      (get_subscription_plan_signing_times_stat_key (repo ∷ item ∷ plan ∷ []))

-- The format "%s$#%s" of the four keys of a user alone.
unfoldable pub user_stat_key : Str → Str → Str
user_stat_key name username = username ++ b'$' ∷ b'#' ∷ name

-- The text before and behind the first byte `b`, and the last one: strings.IndexByte and
-- strings.LastIndexByte with the slices that the code takes at them.
unfoldable pub at_first : ℕ → Str → Option (Str × Str)
at_first b [] = none
at_first b (c ∷ s) =
    let rest = at_first b s in
    if c == b then some ([], s) else elim rest [ none ↦ none | some p ↦ some (c ∷ p.0, p.1) ]

unfoldable pub at_last : ℕ → Str → Option (Str × Str)
at_last b [] = none
at_last b (c ∷ s) = elim (at_last b s) [
  | some p ↦ some (c ∷ p.0, p.1)
  | none ↦ if c == b then some ([], s) else none
]

-- strings.Split(s, "/"), which has always one part at least.
unfoldable pub split_slash : Str → List Str
split_slash [] = [] ∷ []
split_slash (c ∷ s) = let rest = split_slash s in if c == b'/' then [] ∷ rest else onto_first c rest

-- The results of ParseStatKey; the nil slice is the empty list.
pub record StatKey : Type 0 where
  pub date : Str
  pub user : Str
  pub item_keys : List Str
  pub stat_name : Str

-- `if len(itemKeys) == 1 && itemKeys[0] == "" { itemKeys = nil }`
abbrev pub without_blank : List Str → List Str
without_blank ([] ∷ []) = []
without_blank l = l

-- The part before the last '#': the first '$' of the whole key stands before that '#' exactly if it
-- is the first '$' of this part.
abbrev pub item_part : Str → Str → Option (Str × Str) → StatKey
item_part before name (some p) = record {
  date = [];
  user = p.0;
  item_keys = without_blank (split_slash p.1);
  stat_name = name;
}
item_part before name none = record {
  date = [];
  user = [];
  item_keys = without_blank (split_slash before);
  stat_name = name;
}

abbrev pub date_part : Option (Str × Str) → StatKey
date_part (some p) = record { date = p.0; user = []; item_keys = []; stat_name = p.1 }
date_part none = record { date = []; user = []; item_keys = []; stat_name = [] }

abbrev pub key_parts : Str → Option (Str × Str) → StatKey
key_parts key none = date_part (at_last b'>' key)
key_parts key (some p) = item_part p.0 p.1 (at_first b'$' p.0)

unfoldable pub parse_stat_key : Str → StatKey
parse_stat_key key = key_parts key (at_last b'#' key)
