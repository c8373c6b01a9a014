-- ===== src/Server/Routes/Logged.antt =====
-- What the access log tells of a request.
use worker_thoth.Base.{◌≡◌, refl, codes, is_empty}
use worker_thoth.Server.{Reply}
use worker_thoth.Server.Routes.{Request, has_bearer_prefix, access_log}

-- Two requests that differ at most in their credentials, of which each has the same kinds.
pub record SameKinds (r r' : Request) : Type 0 where
  pub method : r'.method ≡ r.method
  pub path : r'.path ≡ r.path
  pub remote_addr : r'.remote_addr ≡ r.remote_addr
  pub user_agent : r'.user_agent ≡ r.user_agent
  pub api_key : is_empty (r'.header (codes "X-API-Key")) ≡ is_empty (r.header (codes "X-API-Key"))
  pub bearer :
      has_bearer_prefix (r'.header (codes "Authorization"))
      ≡ has_bearer_prefix (r.header (codes "Authorization"))

-- The log line of a request with a credential does not depend on what the credential is, and the
-- log changes neither the reply nor the state.
pub access_log-hides :
    {S : Type 0} (next : Request → S → Reply × S) (r r' : Request) (s : S)
    → SameKinds r r'
    → (next r' s).0.status ≡ (next r s).0.status
    → ((access_log next r' s).0 ≡ (access_log next r s).0) × ((access_log next r s).1 ≡ next r s)
unfolding access_log
access_log-hides next r r' s k e =
    (rw (e, k.method, k.path, k.remote_addr, k.user_agent, k.api_key, k.bearer), refl)
