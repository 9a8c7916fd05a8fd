-- ===== src/Tests/Logins.antt =====
-- The theorems on client authentication, on the example client and a public one.
use django_oauth_toolkit.Prelude.{◌≡◌, refl, true, false, none, some, [], ◌∷◌, str_eq}
use django_oauth_toolkit.Text.{split_once}
use django_oauth_toolkit.Models.Rows.{Application, public}
use django_oauth_toolkit.Models.Database.{Database}
use django_oauth_toolkit.Validator.Request.{Request}
use django_oauth_toolkit.Validator.Client.{
  Clients, extract_basic_auth, check_secret, accept, load_stored, load_application, is_jwt_method,
  check_client, basic_credentials, authenticate_basic_auth, presents_client_assertion,
  authenticate_client,
}
use django_oauth_toolkit.Validator.Client.Sound.{
  IsAuthenticated, authenticate_client-IsAuthenticated,
}
use django_oauth_toolkit.Tests.{client, db, request}

abbrev clients : Clients
clients = record {
  is_hashed = λ s. false;
  check_password = λ p s. false;
  constant_time_compare = str_eq;
  decode_credentials = λ s. some s;
  unquote_plus = λ s. s;
  is_representable = λ s. true;
  is_usable = λ a. true;
  resolve_cimd_application = λ i d. (none, d);
  refresh_if_stale = λ a d. (a, d);
  authenticate_client_assertion = λ r d. (false, r, d);
  required_by_default = true;
}

abbrev basic : Request
basic = record request { client = none; authorization = some "Basic client:secret" }

plain : presents_client_assertion basic ≡ false
unfolding presents_client_assertion
plain = refl

basic_run : authenticate_client clients basic db ≡ (true, record basic { client = some client }, db)
unfolding authenticate_client presents_client_assertion authenticate_basic_auth basic_credentials
    extract_basic_auth split_once load_application load_stored accept check_client is_jwt_method
    check_secret
basic_run = refl

authenticate_client_example : IsAuthenticated clients basic (record basic { client = some client })
authenticate_client_example =
    authenticate_client-IsAuthenticated clients basic (record basic { client = some client }) db db
      plain basic_run

abbrev app : Application
app = record client { pk = 2; client_id = "app"; client_type = public }

abbrev public_db : Database
public_db = record db { applications = client ∷ app ∷ [] }

abbrev bare : Request
bare = record request { client = none; client_id = some "app"; client_secret = none }
