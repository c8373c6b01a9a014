-- ===== src/Server/Routes/Guarded.antt =====
-- What a request without the key can do, and the aliases of the gateway.
use worker_thoth.Base.{
  ℕ, ◌+◌, ◌<◌, ◌≡◌, zero, suc, arith, refl, inl, inr, ◌⊎◌, false, Option, none, some, [], Text,
  text_eq, get_elem?, map,
}
use worker_thoth.Redis.{Ops}
use worker_thoth.Window.{Zones}
use worker_thoth.Server.{Reply, Service, extract_api_key, unauthorized, auth}
use worker_thoth.Server.Routes.{
  Request, Endpoint, health, transcribe, transcribe_url, job_status, routes, Outer, Server, Moment,
  dispatch, routed, picked, serve,
}

module _ (o : Ops) (z : Zones) (v : Server o z) (u : Outer) where
  -- The key of a request is not the API key.
  abbrev pub HasNoKey : Request → Type 0
  HasNoKey r = text_eq (extract_api_key r.header) v.config.api_key ≡ false

  -- Nothing was changed, and the reply is the refusal of auth, or that of a request that reached no
  -- handler, or that of the endpoint health.
  abbrev pub Untouched : Request → Moment o z → Service o → Reply × Service o → Type 0
  Untouched r n s t =
      (t.1 ≡ s)
      × ((t.0 ≡ unauthorized)
          ⊎ ((t.0 ≡ u.missed r.method r.path) ⊎ (t.0 ≡ (dispatch o z v u health [] n r s).0)))

  auth_off :
      (r : Request) (next : Service o → Reply × Service o) (s : Service o)
      → HasNoKey r
      → auth v.config r.header next s ≡ (unauthorized, s)
  unfolding auth
  auth_off r next s off = rw off

  dispatch-Untouched :
      (e : Endpoint) (job_id : Text) (n : Moment o z) (r : Request) (s : Service o)
      → HasNoKey r
      → Untouched r n s (dispatch o z v u e job_id n r s)
  unfolding dispatch
  dispatch-Untouched health job_id n r s off = (refl, inr (inr refl))
  dispatch-Untouched transcribe job_id n r s off = rw (auth_off r _ s off) (refl, inl refl)
  dispatch-Untouched transcribe_url job_id n r s off = rw (auth_off r _ s off) (refl, inl refl)
  dispatch-Untouched job_status job_id n r s off = rw (auth_off r _ s off) (refl, inl refl)

  routed-Untouched :
      (p : Option (Text × Endpoint)) (job_id : Text) (n : Moment o z) (r : Request) (s : Service o)
      → HasNoKey r
      → Untouched r n s (routed o z v u p job_id n r s)
  routed-Untouched none job_id n r s off = (refl, inr (inl refl))
  routed-Untouched (some (pattern, e)) job_id n r s off = dispatch-Untouched e job_id n r s off

  picked-Untouched :
      (p : Option (ℕ × Text)) (n : Moment o z) (r : Request) (s : Service o)
      → HasNoKey r
      → Untouched r n s (picked o z v u p n r s)
  picked-Untouched none n r s off = (refl, inr (inl refl))
  picked-Untouched (some (i, job_id)) n r s off =
      routed-Untouched (get_elem? routes i) job_id n r s off

  -- Whatever pattern the mux picks, a request whose key is not the API key changes nothing: the
  -- reply is the refusal with 401, that of the mux itself, or that of the health endpoint, and
  -- Redis, the audio store and the heap are as they were.
  pub serve-Untouched :
      (n : Moment o z) (r : Request) (s : Service o)
      → HasNoKey r
      → Untouched r n s (serve o z v u n r s)
  unfolding serve
  serve-Untouched n r s off =
      picked-Untouched (u.mux (map (λ p. p.0) routes) r.method r.path) n r s off

  -- Two requests that a handler cannot tell apart.
  pub record SameRequest (r r' : Request) : Type 0 where
    pub header : r'.header ≡ r.header
    pub form : r'.form ≡ r.form
    pub decoded : r'.decoded ≡ r.decoded

  same_dispatch :
      (e : Endpoint) (job_id : Text) (n : Moment o z) (r r' : Request) (s : Service o)
      → SameRequest r r'
      → dispatch o z v u e job_id n r' s ≡ dispatch o z v u e job_id n r s
  unfolding dispatch
  same_dispatch health job_id n r r' s same = refl
  same_dispatch transcribe job_id n r r' s same = rw (same.header, same.form)
  same_dispatch transcribe_url job_id n r r' s same = rw (same.header, same.decoded)
  same_dispatch job_status job_id n r r' s same = rw same.header

  alias-picked :
      (i : ℕ) (job_id : Text) (n : Moment o z) (r r' : Request) (s : Service o)
      → SameRequest r r'
      → i < 3
      → picked o z v u (some (i + 4, job_id)) n r' s ≡ picked o z v u (some (i + 1, job_id)) n r s
  alias-picked zero job_id n r r' s same lt = same_dispatch transcribe job_id n r r' s same
  alias-picked (suc zero) job_id n r r' s same lt =
      same_dispatch transcribe_url job_id n r r' s same
  alias-picked (suc (suc zero)) job_id n r r' s same lt =
      same_dispatch job_status job_id n r r' s same
  alias-picked (suc (suc (suc i))) job_id n r r' s same lt = absurd (omega arith)

  -- A path of the gateway gets the reply, and leaves the state, of the native path.
  pub alias-serve :
      (i : ℕ) (job_id : Text) (n : Moment o z) (r r' : Request) (s : Service o)
      → SameRequest r r'
      → i < 3
      → u.mux (map (λ p. p.0) routes) r.method r.path ≡ some (i + 1, job_id)
      → u.mux (map (λ p. p.0) routes) r'.method r'.path ≡ some (i + 4, job_id)
      → serve o z v u n r' s ≡ serve o z v u n r s
  unfolding serve
  alias-serve i job_id n r r' s same lt at_native at_alias =
      rw (at_native, at_alias) (alias-picked i job_id n r r' s same lt)
