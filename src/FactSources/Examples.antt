-- ===== src/FactSources/Examples.antt =====
-- Runs of the verification, and its theorems at a concrete page.
use any_player_sync_server.Prelude.{◌≡◌, refl, true, false, none, some, [], ◌∷◌, codes, map}
use any_player_sync_server.Json.{Value, str, obj, end, field}
use any_player_sync_server.Errors.{ok}
use any_player_sync_server.Strings.{to_ascii_lowercase, is_ascii_alphanumeric}
use any_player_sync_server.MatchKeys.{Unicode}
use any_player_sync_server.FactSources.Chain.{◌>>=◌, refuse_if}
use any_player_sync_server.FactSources.Fetch.{Crates, Response, Net, fetch}
use any_player_sync_server.FactSources.Verify.{Evidence, verify}
use any_player_sync_server.FactSources.Bounds.{Asks}
use any_player_sync_server.FactSources.Verified.{IsVerified, verify_sound}
use any_player_sync_server.FactSources.{wiki_title_url, valid_qid, valid_uuid}

abbrev pub ascii : Unicode
ascii = record { to_lowercase = map to_ascii_lowercase; is_alphanumeric = is_ascii_alphanumeric }

-- The page of a song on Wikipedia.
abbrev page : Value
page = obj (
    field (codes "query")
      (obj (
        field (codes "pages")
          (obj (
            field (codes "1")
              (obj (
                field (codes "title") (str (codes "Hurt (song)"))
                  (field (codes "extract") (str (codes "Hurt is by Cash. It won.")) end)))
              end))
          end))
      end)

abbrev pub crates : Crates
crates = record { from_slice = λ body. some page; percent_encode = λ s. s }

abbrev busy : Response
busy = record { status = 503; content_length = none; chunks = [] }

abbrev found : Response
found = record { status = 200; content_length = some 4; chunks = some (1 ∷ 2 ∷ 3 ∷ 4 ∷ []) ∷ [] }

abbrev pub net : Net
net = record {
  client_builds = true;
  replies = some busy ∷ some busy ∷ some found ∷ [];
  requested = [];
  slept = [];
}

abbrev hurt : Evidence
hurt = record {
  source = codes "wikipedia";
  source_id = codes "Hurt (song)";
  song = codes "Hurt";
  artist = codes "Cash";
  evidence = codes "Hurt is by Cash.";
  claim = codes "Hurt is by Cash.";
}

-- Tests

third_reply : (fetch crates (codes "u") net).0 ≡ ok page
unfolding fetch
third_reply = refl

two_waits : (fetch crates (codes "u") net).1.slept ≡ 250 ∷ 500 ∷ []
unfolding fetch
two_waits = refl

hurt_address :
    (verify ascii crates hurt net).0 ≡ ok (codes "https://en.wikipedia.org/wiki/Hurt_%28song%29")
unfolding verify ◌>>=◌ refuse_if to_ascii_lowercase
hurt_address = refl

umlaut : wiki_title_url (codes "Ä b") ≡ codes "%C3%84_b"
unfolding wiki_title_url
umlaut = refl

short_qid : valid_qid (codes "Q") ≡ false
unfolding valid_qid
short_qid = refl

upper_uuid : valid_uuid (codes "0a0b0c0d-0000-0000-0000-00000000000A") ≡ false
unfolding valid_uuid
upper_uuid = refl

-- The theorem at this page

verify_sound_example :
    Asks (IsVerified ascii crates hurt net) 6 1500 net (verify ascii crates hurt net)
verify_sound_example = verify_sound ascii crates hurt net
