-- ===== src/Server/Jobs/Views.antt =====
-- What the API shows of a job, from the URL that was accepted to the answer that was recorded.
use worker_thoth.Base.{
  ◌&&◌, sym, ap, ◌∙◌, text_eq_iff, ◌≢◌, ◌⊎◌, ◌↔◌, text_eq, ◌≡◌, refl, inl, inr, Bool, true, false,
  Bool-cases, Option, none, some, List, [], ◌∷◌, arith, Text, codes, is_empty, pos, ltb_ℤ, GoError,
  ok,
}
use worker_thoth.Base.Dict.{lookup}
use worker_thoth.Job.{Job, status_completed}
use worker_thoth.Redis.{Ops, Laws}
use worker_thoth.Store
use worker_thoth.Store.{job_key}
use worker_thoth.Store.Jobs.{completed, get-perform}
use worker_thoth.Server.{Config, string, first_non_empty}
use worker_thoth.Server.Received.{enqueue_error-status}
use worker_thoth.Server.Jobs.{
  http_parts, raw_or_string, job_view, handle_get_job, url_admitted, handle_url,
}

view_status :
    (valid : Text → Bool) (j : Job)
    → lookup (codes "status") (job_view valid j) ≡ some (string j.status)
view_status valid j = refl

view_result :
    (valid : Text → Bool) (j : Job)
    → is_empty j.result ≡ false
    → lookup (codes "result") (job_view valid j) ≡ some (raw_or_string valid j.result)
view_result valid j given = ground arith

module _ (o : Ops) (l : Laws o) where
  -- With a time to live that is positive: once SetCompleted has stored a body that is not empty for
  -- a job that Get returned, and HGETALL answers, GET of the job replies 200 with the status
  -- completed and the body as the result, raw if it is valid JSON, else as a string.
  pub get_job-completed :
      (valid : Text → Bool) (s : Store.Store) (id body now : Text) (j : Job) (db db' : o.Db)
      (kvs : List (Text × Text))
      → ltb_ℤ (pos 0) s.job_ttl ≡ true
      → Store.get o id db ≡ ok j
      → Store.set_completed o s id body now db ≡ (none, db')
      → o.hgetall db' (job_key id) ≡ ok kvs
      → is_empty body ≡ false
      → let reply = handle_get_job o valid id db' in
        (reply.status ≡ 200)
        × (lookup (codes "status") reply.body ≡ some (string status_completed))
        × (lookup (codes "result") reply.body ≡ some (raw_or_string valid body))
  unfolding handle_get_job
  get_job-completed valid s id body now j db db' kvs lives got stored answered given =
      rw (get-perform o l s lives (completed body now) id j db db' kvs got stored answered) (
        refl,
        refl,
        view_result valid
            (record j { status = status_completed; result = body; completed_at = now }) given,
      )

is_empty-ne : (t : Text) → is_empty t ≡ false → t ≢ []
is_empty-ne [] h e = cc
is_empty-ne (b ∷ t) h e = cc

ne-is_empty : (t : Text) → t ≢ [] → is_empty t ≡ false
ne-is_empty [] h = absurd (h refl)
ne-is_empty (b ∷ t) h = refl

-- What an http(s) URL has.
abbrev pub IsHttp : Text → Text → Type 0
IsHttp scheme host = ((scheme ≡ codes "http") ⊎ (scheme ≡ codes "https")) × (host ≢ [])

http_parts-IsHttp :
    (scheme host : Text) → http_parts (some (scheme, host)) ≡ true → IsHttp scheme host
http_parts-IsHttp scheme host h = elim (Bool-cases (is_empty host)) [
  | inl missing ↦ absurd (no_both _ (rw missing at h))
  | inr there ↦ (
    elim (Bool-cases (text_eq scheme (codes "http"))) [
      | inl plain ↦ inl ((text_eq_iff scheme (codes "http")).0 plain)
      | inr other ↦
          inr ((text_eq_iff scheme (codes "https")).0 (with_true _ (rw (other, there) at h)))
    ],
    is_empty-ne host there,
  )
]
  where
    no_both : (b : Bool) → b && false ≢ true
    no_both true = λ e. cc e
    no_both false = λ e. cc e

    with_true : (b : Bool) → b && true ≡ true → b ≡ true
    with_true true e = refl
    with_true false e = e

IsHttp-http_parts :
    (scheme host : Text) → IsHttp scheme host → http_parts (some (scheme, host)) ≡ true
IsHttp-http_parts scheme [] (http, given) = absurd (given refl)
IsHttp-http_parts scheme (b ∷ host) (inl plain, given) = rw plain
IsHttp-http_parts scheme (b ∷ host) (inr secure, given) = rw secure

http_parts-elim :
    (parts : Option (Text × Text))
    → http_parts parts ≡ true
    → (scheme : Text) × (host : Text) × (parts ≡ some (scheme, host)) × IsHttp scheme host
http_parts-elim none h = absurd (cc)
http_parts-elim (some (scheme, host)) h = (scheme, host, refl, http_parts-IsHttp scheme host h)

first_non_empty-chosen :
    (sent default : Text)
    → (language : Text) × (((sent ≢ []) × (language ≡ sent)) ⊎ ((sent ≡ []) × (language ≡ default)))
      × (first_non_empty (sent ∷ default ∷ []) ≡ language)
first_non_empty-chosen [] [] = ([], inr (refl, refl), refl)
first_non_empty-chosen [] (b ∷ default) = (b ∷ default, inr (refl, refl), refl)
first_non_empty-chosen (b ∷ sent) default = (b ∷ sent, inl (λ e. cc e, refl), refl)

chosen-first_non_empty :
    (sent default language : Text)
    → ((sent ≢ []) × (language ≡ sent)) ⊎ ((sent ≡ []) × (language ≡ default))
    → first_non_empty (sent ∷ default ∷ []) ≡ language
chosen-first_non_empty [] default language (inl (ne, e)) = absurd (ne refl)
chosen-first_non_empty (b ∷ sent) default language (inl (ne, e)) = sym e
chosen-first_non_empty [] [] language (inr (e, same)) = sym same
chosen-first_non_empty [] (b ∷ default) language (inr (e, same)) = sym same
chosen-first_non_empty (b ∷ sent) default language (inr (e, same)) = absurd (cc e)

module _ (o : Ops) (c : Config) (st : Store.Store) (parse_url : Text → Option (Text × Text)) where
  -- The job of a URL.
  abbrev url_job : Text → Text → Text → Text → Job
  url_job id url language now = record {
    id = id;
    status = codes "queued";
    source = codes "url";
    url = url;
    language = language;
    result = [];
    error = [];
    created_at = now;
    completed_at = [];
  }

  -- The body had an absolute http(s) URL, and its job is in the queue.
  pub record IsQueued (decoded : Option (Text × Text)) (id now : Text) (db db' : o.Db)
      : Type 0 where
    pub url : Text
    pub sent_language : Text
    pub language : Text
    pub scheme : Text
    pub host : Text
    pub sent : decoded ≡ some (url, sent_language)
    pub given : url ≢ []
    pub parsed : parse_url url ≡ some (scheme, host)
    pub http : IsHttp scheme host
    pub chosen :
        ((sent_language ≢ []) × (language ≡ sent_language))
        ⊎ ((sent_language ≡ []) × (language ≡ c.default_language))
    pub queued : Store.create_and_enqueue o st (url_job id url language now) db ≡ (none, db')

  url_admitted-accepted :
      (id : Text) (r : Option GoError × o.Db)
      → (url_admitted o id r).0.status ≡ 202
      → r ≡ (none, (url_admitted o id r).1)
  url_admitted-accepted id (none, db) accepted = refl
  url_admitted-accepted id (some e, db) accepted = absurd (enqueue_error-status e accepted)

  abbrev enqueued_url : Text → Text → Text → Text → o.Db → Option GoError × o.Db
  enqueued_url url sent id now db =
      Store.create_and_enqueue o st
        (url_job id url (first_non_empty (sent ∷ c.default_language ∷ [])) now) db

  handle_url-url_admitted :
      (url sent id now : Text) (db : o.Db)
      → is_empty url ≡ false
      → http_parts (parse_url url) ≡ true
      → handle_url o c st parse_url (some (url, sent)) id now db
        ≡ url_admitted o id (enqueued_url url sent id now db)
  unfolding handle_url
  handle_url-url_admitted url sent id now db given http = rw (given, http)

  enqueue_url :
      (url sent id now : Text) (db : o.Db)
      → is_empty url ≡ false
      → http_parts (parse_url url) ≡ true
      → (handle_url o c st parse_url (some (url, sent)) id now db).0.status ≡ 202
      → IsQueued
          (some (url, sent))
          id
          now
          db
          (handle_url o c st parse_url (some (url, sent)) id now db).1
  enqueue_url url sent id now db given http accepted =
      let (scheme, host, parsed, is_http) = http_parts-elim (parse_url url) http in
      let (language, chosen, same) = first_non_empty-chosen sent c.default_language in
      let e = handle_url-url_admitted url sent id now db given http in
      let r = enqueued_url url sent id now db in
      let queued = url_admitted-accepted id r (ap (λ v. v.0.status) (sym e) ∙ accepted) in
      record {
        url = url;
        sent_language = sent;
        language = language;
        scheme = scheme;
        host = host;
        sent = refl;
        given = is_empty-ne url given;
        parsed = parsed;
        http = is_http;
        chosen = chosen;
        queued =
            ap (λ t. Store.create_and_enqueue o st (url_job id url t now) db) (sym same)
            ∙ queued
            ∙ ap (λ v. (none, v.1)) (sym e);
      }

  accepted-IsQueued :
      (decoded : Option (Text × Text)) (id now : Text) (db : o.Db)
      → (handle_url o c st parse_url decoded id now db).0.status ≡ 202
      → IsQueued decoded id now db (handle_url o c st parse_url decoded id now db).1
  unfolding handle_url
  accepted-IsQueued none id now db accepted = absurd (omega arith)
  accepted-IsQueued (some (url, sent)) id now db accepted = elim (Bool-cases (is_empty url)) [
    | inl missing ↦ absurd (omega (arith, rw missing at accepted))
    | inr given ↦ elim (Bool-cases (http_parts (parse_url url))) [
      | inl http ↦ enqueue_url url sent id now db given http accepted
      | inr other ↦ absurd (omega (arith, rw (given, other) at accepted))
    ]
  ]

  IsQueued-accepted :
      (decoded : Option (Text × Text)) (id now : Text) (db db' : o.Db)
      → IsQueued decoded id now db db'
      → (handle_url o c st parse_url decoded id now db).0.status ≡ 202
  IsQueued-accepted decoded id now db db' v =
      let language =
        chosen-first_non_empty v.sent_language c.default_language v.language v.chosen in
      let http = ap http_parts v.parsed ∙ IsHttp-http_parts v.scheme v.host v.http in
      let e =
        handle_url-url_admitted v.url v.sent_language id now db (ne-is_empty v.url v.given) http in
      let queued =
        ap (λ t. Store.create_and_enqueue o st (url_job id v.url t now) db) language ∙ v.queued in
      ap (λ d. (handle_url o c st parse_url d id now db).0.status) v.sent
      ∙ ap (λ r. r.0.status) e
      ∙ ap (λ r. (url_admitted o id r).0.status) queued

  -- handleURL replies 202 exactly if the body had a URL that is not empty and that has the scheme
  -- http or https and a host, and CreateAndEnqueue has accepted the job with the ID, the status
  -- queued, the source url, that URL, the language that was sent or else the default, the time, and
  -- no result.
  pub url_accepted :
      (decoded : Option (Text × Text)) (id now : Text) (db : o.Db)
      → ((handle_url o c st parse_url decoded id now db).0.status ≡ 202)
        ↔ IsQueued decoded id now db (handle_url o c st parse_url decoded id now db).1
  url_accepted decoded id now db =
      (accepted-IsQueued decoded id now db, IsQueued-accepted decoded id now db _)
