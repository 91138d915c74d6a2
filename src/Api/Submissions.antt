-- ===== src/Api/Submissions.antt =====
-- What `handleSubmissions` of pkg/api/server.go does before each of its responses.
use remote_runtime_engine.Base.{
  ℕ, ◌≡◌, refl, ◌⊎◌, inl, inr, Bool, true, false, Option, none, some, Bool-cases, Result-cases,
  List, [], ◌∷◌, Text, codes, Float, Result, ok, err, CaseTable, trim_space, arith, ℤ,
}
use remote_runtime_engine.Models.Request.{is_empty}
use remote_runtime_engine.Languages.{LanguageHandler, get}
use remote_runtime_engine.Api.{
  ServerConfig, SubmitRequest, Response, write_json_error, Services, Call, saves, enqueues,
  publishes, invalid, overloaded, initial_state, job_of, accepted_response, queued_event, announce,
  hand_over, submit, submit_unless, check_depth, handle_submissions,
}

-- A body that passes the checks of the handler.
pub record Passes {F : Type 0} (table : CaseTable) (body : Result Text (SubmitRequest F))
    (req : SubmitRequest F) : Type 0 where
  pub decoded : body ≡ ok req
  pub has_code : is_empty (trim_space req.code) ≡ false
  pub has_language : (lang : LanguageHandler) × (get table req.language ≡ ok lang)

module _ {F : Type 0} (fl : Float F) (table : CaseTable) where
  -- How a request to submit is served: the response, and the calls made before it.
  pub data Served (body : Result Text (SubmitRequest F)) : Response → List (Call F) → Type 0 where
    turned_away :
        (r : Response) → (r.status ≡ 400) ⊎ (r.status ≡ 405) ⊎ (r.status ≡ 429) → Served body r []
    unsaved :
        (r : Response) (req : SubmitRequest F) (id : Text) (now : ℕ)
        → r.status ≡ 500
        → Passes table body req
        → Served body r (saves (initial_state fl id now req) ∷ [])
    orphaned :
        (r : Response) (req : SubmitRequest F) (id : Text) (now : ℕ)
        → r.status ≡ 500
        → Passes table body req
        → Served body r (saves (initial_state fl id now req) ∷ enqueues (job_of id now req) ∷ [])
    taken :
        (req : SubmitRequest F) (id : Text) (now : ℕ)
        → Passes table body req
        → Served body (accepted_response id now) (
            saves (initial_state fl id now req)
            ∷ enqueues (job_of id now req)
            ∷ publishes id (queued_event fl id now)
            ∷ [])

  invalid_lem :
      (req : SubmitRequest F)
      → ((r : Response) × (invalid table req ≡ some r) × (r.status ≡ 400))
        ⊎ (invalid table req ≡ none) × Passes table (ok req) req
  unfolding invalid write_json_error
  invalid_lem req = elim (Bool-cases (is_empty (trim_space req.code))) [
    | inl e ↦ inl (write_json_error 400 (codes "code cannot be empty"), rw (e, invalid) refl, refl)
    | inr e ↦ elim (Result-cases (get table req.language)) [
      | inl (lang, k) ↦ inr (
        rw (e, k, invalid) refl,
        record { decoded = refl; has_code = e; has_language = (lang, k) },
      )
      | inr (m, k) ↦ inl (write_json_error 400 m, rw (e, k, invalid) refl, refl)
    ]
  ]

  module _ {S : Type 0} (cfg : ServerConfig) (srv : Services S F) where
    announce-Served :
        (body : Result Text (SubmitRequest F)) (req : SubmitRequest F) (id : Text) (now : ℕ)
        (e : Option Text) (s : S)
        → Passes table body req
        → (let (r, calls, _) =
              announce fl table cfg srv id now
                (initial_state fl id now req)
                (job_of id now req)
                e
                s in
            Served body r calls)
    unfolding announce write_json_error
    announce-Served body req id now (some e) s v = orphaned _ req id now refl v
    announce-Served body req id now none s v = taken req id now v

    hand_over-Served :
        (body : Result Text (SubmitRequest F)) (req : SubmitRequest F) (id : Text) (now : ℕ)
        (e : Option Text) (s : S)
        → Passes table body req
        → (let (r, calls, _) =
              hand_over fl table cfg srv id now
                (initial_state fl id now req)
                (job_of id now req)
                e
                s in
            Served body r calls)
    unfolding hand_over write_json_error
    hand_over-Served body req id now (some e) s v = unsaved _ req id now refl v
    hand_over-Served body req id now none s v =
        let (e, s') = srv.enqueue (job_of id now req) s in announce-Served body req id now e s' v

    submit-Served :
        (body : Result Text (SubmitRequest F)) (req : SubmitRequest F) (s : S)
        → Passes table body req
        → (let (r, calls, _) = submit fl table cfg srv req s in Served body r calls)
    unfolding submit
    submit-Served body req s v = hand_over-Served body req _ _ _ _ v

    overloaded_status :
        (depth : Result Text ℤ) (r : Response) → overloaded cfg depth ≡ some r → r.status ≡ 429
    unfolding overloaded write_json_error
    overloaded_status (err e) r h = cc
    overloaded_status (ok depth) r h = ground (arith, h)

    submit_unless-Served :
        (body : Result Text (SubmitRequest F)) (req : SubmitRequest F) (o : Option Response) (s : S)
        → ((r : Response) → o ≡ some r → r.status ≡ 429)
        → Passes table body req
        → (let (r, calls, _) = submit_unless fl table cfg srv o req s in Served body r calls)
    unfolding submit_unless
    submit_unless-Served body req (some r) s h v = turned_away r (inr (inr (h r refl)))
    submit_unless-Served body req none s h v = submit-Served body req s v

    check_depth-Served :
        (req : SubmitRequest F) (s : S)
        → (let (r, calls, _) = check_depth fl table cfg srv (invalid table req) req s in
            Served (ok req) r calls)
    unfolding check_depth
    check_depth-Served req s = elim (invalid_lem req) [
      | inl (r, e, k) ↦ rw (e, check_depth) (turned_away r (inl k))
      | inr (e, v) ↦
          (let (depth, s') = srv.queue_depth s in
            rw (e, check_depth)
              (submit_unless-Served (ok req) req (overloaded cfg depth) s' (overloaded_status depth)
                v))
    ]

    -- A request is turned away by 400, 405 or 429 before any call that changes something; or it fails by
    -- 500 after the call that saves its state, or after that and the one that enqueues its job; or it
    -- gets 202 after its state was saved, its job enqueued and the event QUEUED published, in this
    -- order, under one id and at one time. All but the first have a body that decodes, with code that is
    -- not blank and a known language, and the job carries the body's limits and test cases.
    pub handle_submissions-Served :
        (is_post : Bool) (body : Result Text (SubmitRequest F)) (s : S)
        → (let (r, calls, _) = handle_submissions fl table cfg srv is_post body s in
            Served body r calls)
    unfolding handle_submissions write_json_error
    handle_submissions-Served false body s = turned_away _ (inr (inl refl))
    handle_submissions-Served true (err e) s = turned_away _ (inl refl)
    handle_submissions-Served true (ok req) s = check_depth-Served req s
