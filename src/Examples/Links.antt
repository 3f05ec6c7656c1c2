-- ===== src/Examples/Links.antt =====
-- A one-time link that is followed.
use dorian_back_end.Prelude.{◌≡◌, ◌≢◌, refl, none, [], ◌∷◌, pos}
use dorian_back_end.Text.{Text, codes, trim_space}
use dorian_back_end.Action.{ok}
use dorian_back_end.Store.Database.{Database, update}
use dorian_back_end.Store.ApiTokens.{hash_api_token_secret}
use dorian_back_end.Store.UserTokens.{
  UserToken, LinkUser, LinkTables, UserTokenPeek, consume, has_link_id, used_up,
}
use dorian_back_end.Store.UserTokens.OneTime.{link_used_once}
use dorian_back_end.Examples.Servers.{memory_database, memory_database-IsDocumented}

abbrev db : Database LinkTables
db = memory_database

abbrev plain : Text → Text
plain s = s

abbrev link : UserToken
link = record {
  id = 3;
  user_id = pos 7;
  purpose = codes "reset";
  token_hash = codes "s3";
  created_by = none;
  created_at = 1000;
  expires_at = 9000;
  used_at = none;
}

abbrev user : LinkUser
user = record { id = pos 7; email = codes "ann@example.org"; name = codes "Ann" }

abbrev tables : LinkTables
tables = record { links = link ∷ []; users = user ∷ []; next_id = 4 }

abbrev after : LinkTables
after = record tables { links = used_up plain db 2000 link ∷ [] }

abbrev greeting : UserTokenPeek
greeting = record {
  user_id = pos 7;
  purpose = codes "reset";
  email = codes "ann@example.org";
  name = codes "Ann";
  expires_at = 9000;
}

served : consume plain db 2000 (codes " s3") (codes "reset") tables ≡ (ok greeting, after)
unfolding consume dorian_back_end.Store.UserTokens.consume_rows
    dorian_back_end.Store.UserTokens.lookup dorian_back_end.Text.◌is◌ trim_space
    dorian_back_end.Store.UserTokens.valid_user_token_purpose
    dorian_back_end.Store.UserTokens.link_with_user dorian_back_end.Store.Database.find
    hash_api_token_secret update
served = refl

link_used_once_example :
    consume plain db 3000 (codes "s3 ") (codes "reset") after ≢ (ok greeting, after)
unfolding trim_space
link_used_once_example =
    link_used_once plain db memory_database-IsDocumented 2000 3000 (codes " s3") (codes "s3 ")
      (codes "reset") tables after after greeting greeting served refl
