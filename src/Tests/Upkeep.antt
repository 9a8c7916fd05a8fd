-- ===== src/Tests/Upkeep.antt =====
-- The theorems on the cleanup, on example tables.
use django_oauth_toolkit.Prelude.{◌≡◌, refl, inl, inr, none, some, [], ◌∷◌, arith}
use django_oauth_toolkit.Settings.{ok}
use django_oauth_toolkit.Models.Rows.{Grant}
use django_oauth_toolkit.Models.Database.{Database}
use django_oauth_toolkit.Models.Revoke.{refresh_token_expire_timedelta}
use django_oauth_toolkit.Models.Cleanup.{cutoffs, grace_delta, clear_expired}
use django_oauth_toolkit.Models.Cleanup.Keeps.{IsTidy}
use django_oauth_toolkit.Models.Cleanup.Total.{IsSwept, clear_expired-ends}
use django_oauth_toolkit.Tests.{settings, env, access, refresh, db}

abbrev old_grant : Grant
old_grant = record {
  pk = 20;
  user = 5;
  code = "code";
  application = 1;
  expires = 90;
  redirect_uri = "https://a.test/cb";
  scope = "read";
  code_challenge = "";
  code_challenge_method = "";
  nonce = "";
  resource = [];
}

-- Beside the live token: an orphan, a code that has expired and one that has not.
abbrev dusty : Database
dusty = record db {
  grants = old_grant ∷ record old_grant { pk = 21; code = "code2"; expires = 120 } ∷ [];
  refresh_tokens =
      refresh
      ∷ record refresh { pk = 22; token = "rt2"; token_checksum = "rt2"; access_token = none }
      ∷ [];
  next_pk = 23;
}

dusty-IsTidy : IsTidy (λ s. s) 10 dusty
dusty-IsTidy = record {
  tokens = record {
    is_sealed = (inr refl, (inr refl, tt));
    detached = (inl refl, (inl refl, tt));
    linked = ((access, refl, refl), (tt, tt));
    sourced = (tt, tt);
    keyed_access = (refl, tt);
    keyed_refresh = (refl, (refl, tt));
    fresh_access = (omega arith, tt);
    fresh_refresh = (omega arith, (omega arith, tt));
  };
  keyed_ids = tt;
  keyed_grants = (refl, (refl, tt));
  keyed_requests = tt;
  few_access = omega arith;
  few_refresh = omega arith;
  few_ids = omega arith;
  few_grants = omega arith;
  few_requests = omega arith;
}

dusty-cutoffs : cutoffs settings ≡ ok (some 1000, some 1000)
unfolding cutoffs grace_delta refresh_token_expire_timedelta
dusty-cutoffs = refl

clear_expired-ends_example :
    (db' : Database) × (clear_expired env 10 dusty ≡ ok (some db'))
    × IsSwept (λ s. s) 100 10 (some 1000, some 1000) dusty db'
clear_expired-ends_example =
    clear_expired-ends env 1 10 (some 1000, some 1000) dusty dusty-cutoffs refl dusty-IsTidy
