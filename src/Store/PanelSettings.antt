-- ===== src/Store/PanelSettings.antt =====
-- internal/store/panel_settings.go: the settings of the panel, read through a cache in the process, and
-- the policy that forces two-factor sign-in. Times are milliseconds.
pub mod Cached
use dorian_back_end.Prelude.{
  ℕ, ◌+◌, ◌-◌, ◌≡◌, Bool, true, false, Option, none, some, List, [], ◌∷◌, ltb, if◌then◌else◌, ℤ,
  positive,
}
use dorian_back_end.Text.{Text, codes, ◌is◌, trim_space, to_lower, equal_fold}
use dorian_back_end.Action.{Action, Result, ok, err, invalid, failed}
use dorian_back_end.Store.Database.{Database}

abbrev pub setting_require_mfa : Text
setting_require_mfa = codes "security.require_mfa"

abbrev pub off : Text
off = codes "off"

abbrev pub admins : Text
admins = codes "admins"

abbrev pub everyone : Text
everyone = codes "all"

unfoldable pub normalize_require_mfa : Text → Text
normalize_require_mfa value =
    let v = to_lower (trim_space value) in
    if v is admins then admins else if v is everyone then everyone else off

unfoldable pub require_mfa_applies : Text → Text → Bool
require_mfa_applies policy role =
    if normalize_require_mfa policy is everyone
    then true
    else if normalize_require_mfa policy is admins
    then equal_fold (trim_space role) (codes "Admin")
    else false

-- A row of `panel_settings`.
pub record Setting : Type 0 where
  pub key : Text
  pub value : Text
  pub updated_by : Option ℤ
  pub updated_at : ℕ

abbrev pub cache_ttl : ℕ
cache_ttl = 15000

-- A map from texts to texts: the latest entry of a key stands first.
abbrev pub TextMap : Type 0
TextMap = List (Text × Text)

-- `m[key]`: a key that is not there reads as the empty text.
unfoldable pub read_key : Text → TextMap → Text
read_key key [] = []
read_key key ((k, v) ∷ m) = if k is key then v else read_key key m

-- What `rows.Scan` made of a row: its key and value, or `none` for an error.
abbrev pub Scanned : Type 0
Scanned = Option (Text × Text)

-- The loop over the rows: `next[k] = v`, up to the first row that cannot be scanned.
unfoldable pub load_rows : List Scanned → TextMap → Option TextMap
load_rows [] m = some m
load_rows (none ∷ rows) m = none
load_rows (some entry ∷ rows) m = load_rows rows (entry ∷ m)

-- `cursor` is what `rows.Next` and `rows.Scan` give of the rows that the server selected; the rows may end
-- early, which the source does not ask for.
module _ (d : Database (List Setting)) (cursor : List Setting → List Scanned) where
  open d use {State, content, collates, run}

  -- The store: the server, the cache (`none` is a nil map) and when it was loaded.
  pub record PanelSettings : Type 0 where
    pub server : State
    pub cache : Option TextMap
    pub loaded : ℕ

  abbrev pub select_all : List Setting → Result (List Setting) × List Setting
  select_all rows = (ok rows, rows)

  abbrev pub stale : ℕ → PanelSettings → Bool
  stale now p = elim p.cache [ none ↦ true | some m ↦ ltb cache_ttl (now - p.loaded) ]

  -- The cache that stands where the query failed.
  abbrev pub after_failure : Text → PanelSettings → Option TextMap → Result Text × PanelSettings
  after_failure key p none = (err failed, p)
  after_failure key p (some m) = (ok (read_key key m), p)

  -- The new cache, unless a row could not be scanned.
  abbrev pub loaded_map : ℕ → Text → PanelSettings → Option TextMap → Result Text × PanelSettings
  loaded_map later key p none = (err failed, p)
  loaded_map later key p (some next) =
      (ok (read_key key next), record p { cache = some next; loaded = later })

  abbrev pub refreshed :
      ℕ → Text → PanelSettings → Result (List Setting) × State → Result Text × PanelSettings
  refreshed later key p (ok rows, s) =
      loaded_map later key (record p { server = s }) (load_rows (cursor rows) [])
  refreshed later key p (err e, s) = after_failure key (record p { server = s }) p.cache

  abbrev pub cached : Text → PanelSettings → Text
  cached key p = elim p.cache [ none ↦ [] | some m ↦ read_key key m ]

  -- `now` is read for the age of the cache, `later` when it is loaded again.
  unfoldable pub get : ℕ → ℕ → Text → Action PanelSettings Text
  get now later key p =
      if stale now p
      then refreshed later key p (run (List Setting) select_all p.server)
      else (ok (cached key p), p)

  abbrev pub has_key : Text → Setting → Bool
  has_key key row = collates row.key key

  abbrev pub creator : ℤ → Option ℤ
  creator by = if positive by then some by else none

  -- INSERT … ON DUPLICATE KEY UPDATE; the key of a row that is there keeps its spelling.
  unfoldable pub upsert : Setting → List Setting → List Setting
  upsert new [] = new ∷ []
  upsert new (row ∷ rows) =
      let rest = upsert new rows in
      if has_key new.key row then record new { key = row.key } ∷ rows else row ∷ rest

  abbrev pub set_rows : Setting → List Setting → Result (Unit {0}) × List Setting
  set_rows new rows = (ok tt, upsert new rows)

  abbrev pub write_through : Text → Text → Option TextMap → Option TextMap
  write_through key value none = none
  write_through key value (some m) = some ((key, value) ∷ m)

  abbrev pub stored :
      Text → Text → PanelSettings → Result (Unit {0}) × State → Result (Unit {0}) × PanelSettings
  stored key value p (ok a, s) =
      (ok a, record p { server = s; cache = write_through key value p.cache })
  stored key value p (err e, s) = (err e, record p { server = s })

  unfoldable pub set : ℕ → Text → Text → ℤ → Action PanelSettings (Unit {0})
  set now key value by p =
      let k = trim_space key in
      if k is []
      then (err invalid, p)
      else stored k value p (
          run (Unit {0})
            (set_rows
              (record { key = k; value = value; updated_by = creator by; updated_at = now }))
            p.server)
