-- ===== src/Examples/Tokens.antt =====
-- An API token that is looked up and revoked, and a setting that is written and read.
use dorian_back_end.Prelude.{
  ◌≡◌, ◌≢◌, refl, false, none, some, Option, List, [], ◌∷◌, pos, map, if◌then◌else◌,
}
use dorian_back_end.Text.{Text, codes, ◌is◌, member, trim_space, to_lower, equal_fold}
use dorian_back_end.Action.{err, failed}
use dorian_back_end.Store.Database.{Database, update, count}
use dorian_back_end.Store.ApiTokens.{
  TokenRow, TokenUser, TokenTables, ApiTokenLookup, ApiToken, normalize_scopes, revoked_token,
  revocable_token, lookup_active_by_secret, revoke_token,
}
use dorian_back_end.Store.ApiTokens.Access.{
  IsAccepted, lookup_active_by_secret_sound, revoke_ends_token,
}
use dorian_back_end.Store.PanelSettings
use dorian_back_end.Store.PanelSettings.{Setting, Scanned}
use dorian_back_end.Examples.Servers.{memory_database, memory_database-IsDocumented}

abbrev db : Database TokenTables
db = memory_database

abbrev plain : Text → Text
plain s = s

abbrev no_json : Text → Option (List Text)
no_json s = some (s ∷ [])

abbrev user : TokenUser
user = record {
  id = pos 7;
  name = codes "Ann";
  email = codes "ann@example.org";
  role = codes "admin";
  status = codes "active";
  mfa_enabled = false;
}

abbrev row : TokenRow
row = record {
  id = pos 3;
  user_id = pos 7;
  name = codes "ci";
  token_prefix = codes "dorian_pat_aa";
  token_hash = codes "dorian_pat_aa";
  scopes = codes "read";
  expires_at = some 9000;
  last_used_at = none;
  created_at = 1000;
  revoked_at = none;
}

abbrev other : TokenRow
other = record row { id = pos 4; token_hash = codes "dorian_pat_bb" }

abbrev tables : TokenTables
tables = record { tokens = row ∷ other ∷ []; users = user ∷ []; next_id = 5 }

abbrev found_token : ApiToken
found_token = record {
  id = pos 3;
  user_id = pos 7;
  name = codes "ci";
  token_prefix = codes "dorian_pat_aa";
  scopes = codes "read" ∷ [];
  expires_at = some 9000;
  last_used_at = none;
  created_at = 1000;
  revoked_at = none;
}

abbrev found_row : ApiTokenLookup
found_row = record { token = found_token; user = user }

abbrev found_other : ApiTokenLookup
found_other = record { token = record found_token { id = pos 4 }; user = user }

lookup_active_by_secret_sound_example :
    IsAccepted plain db memory_database-IsDocumented no_json 2000
      (codes "dorian_pat_aa")
      tables
      found_row
    × (tables ≡ tables)
unfolding lookup_active_by_secret dorian_back_end.Text.has_prefix dorian_back_end.Text.strip
    trim_space dorian_back_end.Store.ApiTokens.token_with_user dorian_back_end.Store.Database.find
    ◌is◌ dorian_back_end.Store.ApiTokens.hash_api_token_secret equal_fold
    dorian_back_end.Store.ApiTokens.scan_api_token dorian_back_end.Store.ApiTokens.decode_scopes
    normalize_scopes dorian_back_end.Store.ApiTokens.collect member
lookup_active_by_secret_sound_example =
    lookup_active_by_secret_sound plain db memory_database-IsDocumented no_json 2000
      (codes "dorian_pat_aa") tables tables found_row refl

abbrev without_row : TokenTables
without_row = record tables { tokens = revoked_token plain db no_json 2000 row ∷ other ∷ [] }

-- The other token of two users, of whom one has revoked a token.
abbrev theirs : TokenRow
theirs = record row { id = pos 4; user_id = pos 8; token_hash = codes "dorian_pat_cc" }

abbrev shared : TokenTables
shared = record {
  tokens = row ∷ theirs ∷ [];
  users = user ∷ record user { id = pos 8 } ∷ [];
  next_id = 5;
}

abbrev found_theirs : ApiTokenLookup
found_theirs = record {
  token = record found_token { id = pos 4; user_id = pos 8 };
  user = record user { id = pos 8 };
}

-- Two rows of one id, which the table's key excludes in practice, show the user at work.
abbrev twins : TokenTables
twins = record shared { tokens = row ∷ record theirs { id = pos 3 } ∷ [] }

abbrev twins_after : TokenTables
twins_after = record twins {
  tokens = revoked_token plain db no_json 2000 row ∷ record theirs { id = pos 3 } ∷ [];
}

revoke_ends_token_example : pos 8 ≢ pos 7
unfolding revoke_token dorian_back_end.Store.ApiTokens.revoke_token_rows count update
    lookup_active_by_secret dorian_back_end.Text.has_prefix dorian_back_end.Text.strip trim_space
    dorian_back_end.Store.ApiTokens.token_with_user dorian_back_end.Store.Database.find ◌is◌
    dorian_back_end.Store.ApiTokens.hash_api_token_secret equal_fold
    dorian_back_end.Store.ApiTokens.scan_api_token dorian_back_end.Store.ApiTokens.decode_scopes
    normalize_scopes dorian_back_end.Store.ApiTokens.collect dorian_back_end.Text.Equal.fold_char
    dorian_back_end.Text.Equal.lower_char member dorian_back_end.Text.is_space
    dorian_back_end.Text.trim_left
revoke_ends_token_example =
    revoke_ends_token plain db memory_database-IsDocumented no_json 2000 3000 (pos 7) (pos 3)
      (codes "dorian_pat_cc") twins twins_after twins_after
      (record found_theirs { token = record found_token { user_id = pos 8 } }) refl refl refl

abbrev settings_db : Database (List Setting)
settings_db = memory_database

-- Every row can be scanned, but for one with an empty key.
abbrev scan : Setting → Scanned
scan row = if row.key is [] then none else some (row.key, row.value)

abbrev cursor : List Setting → List Scanned
cursor rows = map scan rows

abbrev settings : PanelSettings.PanelSettings settings_db cursor
settings = record {
  server = record { key = []; value = []; updated_by = none; updated_at = 500 } ∷ [];
  cache = some ((codes "k", codes "all") ∷ []);
  loaded = 1000;
}

unreadable :
    PanelSettings.get settings_db cursor 90000 90001 (codes "k") settings ≡ (err failed, settings)
unfolding PanelSettings.get PanelSettings.load_rows ◌is◌
unreadable = refl
