-- ===== src/Api/Release.antt =====
-- What a request of internal/api/handler.go that fails to make its notification does to its
-- idempotency key.
use nimbus_app.Prelude.{ℕ, ◌+◌, ◌<◌, ◌≡◌, ◌≢◌, ◌∙◌, refl, String, true, none, some, arith}
use nimbus_app.Db.Statement.{done, refused}
use nimbus_app.Db.Repository.{create_notification}
use nimbus_app.Redis.{Server, text, reply}
use nimbus_app.Redis.Idempotency.{
  build_key, processing_marker, processing_ttl, check, reserve, check_or_reserve, release,
}
use nimbus_app.Redis.Idempotency.Holding.{script-other}
use nimbus_app.Api.{NotificationRequest, decoded, Formats, State}
use nimbus_app.Api.Create.{
  Services, Meets, accepted, validate, new_notification, uses_key, key_of, create_handler,
}
use nimbus_app.Api.Durable.{failed_create}
use nimbus_app.Db.Statement.{err, failed_at}
use nimbus_app.Db.{Notification, Database}

refused_create :
    (now : ℕ) (n : Notification) (db : Database)
    → create_notification refused now n db ≡ (err (failed_at "insert notification"), db)
unfolding create_notification
refused_create now n db = ground arith

module _ (R : Server) (t : ℕ) (tenant_id key : String) (s : R.Store) where
  released :
      (now : ℕ)
      → R.get now (build_key tenant_id key) s ≡ some (text processing_marker)
      → check R done t tenant_id key (release R done now tenant_id key s).1 ≡ reply none
  unfolding check release
  released now h = rw h (rw (R.get-del t (build_key tenant_id key) s) refl)

module _ (R : Server) (F : Formats) (services : Services) where
  -- A request that reserved its key, where nothing was under it, and whose INSERT was refused within
  -- the reservation's five minutes is answered with 500 and, where its release was carried out, the
  -- key is free again: the client's retry is not taken for a duplicate. The database, the queue and what
  -- is under every other key of the key store are as before.
  pub failed_create_frees_key :
      (m : Meets) (header : String) (req : NotificationRequest) (u v : ℕ) (st : State R)
      → validate F req ≡ accepted u v
      → uses_key R F services (key_of R F services header req) ≡ true
      → m.check ≡ done
      → R.get m.now_check (build_key req.tenant_id (key_of R F services header req)) st.store ≡ none
      → m.reserve ≡ done
      → R.get m.now_reserve (build_key req.tenant_id (key_of R F services header req)) st.store
        ≡ none
      → m.insert ≡ refused
      → m.release ≡ done
      → m.now_release < m.now_reserve + processing_ttl
      → let (a, st') = create_handler R F services m header (decoded req) st in
        (a ≡ failed_create)
        × (st'.db ≡ st.db)
        × (st'.queue ≡ st.queue)
        × ((t : ℕ)
            → check R done t req.tenant_id (key_of R F services header req) st'.store ≡ reply none)
        × ((t : ℕ) (k : String)
            → k ≢ build_key req.tenant_id (key_of R F services header req)
            → R.get t k st'.store ≡ R.get t k st.store)
  unfolding create_handler check_or_reserve check reserve release
  failed_create_frees_key m header req u v st a k c ch r rh i rel lt =
      rw
        (
          a,
          k,
          c,
          ch,
          r,
          R.set_nx-absent m.now_reserve (build_key req.tenant_id (key_of R F services header req))
              (text processing_marker) processing_ttl st.store rh,
          i,
          refused_create m.now (new_notification m.fresh u v req) st.db,
          k,
          rel,
        )
        (
          refl,
          refl,
          refl,
          λ t. released R t req.tenant_id (key_of R F services header req) _ m.now_release (
              R.get-set m.now_reserve m.now_release
                (build_key req.tenant_id (key_of R F services header req)) (text processing_marker)
                processing_ttl st.store lt),
          λ t k' apart.
              script-other R k' t m.now_release
                (build_key req.tenant_id (key_of R F services header req)) _ apart
              ∙ R.get-set_other m.now_reserve t
                  (build_key req.tenant_id (key_of R F services header req)) k'
                  (text processing_marker) processing_ttl st.store apart,
        )

  -- A request whose check of the key got no answer goes on without a reservation; when its INSERT is
  -- refused it releases the key all the same, and the marker that another request in progress has put
  -- there is gone: a third request with the key is not refused.
  pub unanswered_check_frees_anothers_key :
      (m : Meets) (header : String) (req : NotificationRequest) (u v t : ℕ) (st : State R)
      → validate F req ≡ accepted u v
      → uses_key R F services (key_of R F services header req) ≡ true
      → m.check ≡ refused
      → m.insert ≡ refused
      → m.release ≡ done
      → R.get m.now_release (build_key req.tenant_id (key_of R F services header req)) st.store
        ≡ some (text processing_marker)
      → check R done t req.tenant_id
          (key_of R F services header req)
          (create_handler R F services m header (decoded req) st).1.store
        ≡ reply none
  unfolding create_handler check_or_reserve check
  unanswered_check_frees_anothers_key m header req u v t st a k c i rel h =
      rw (a, k, c, i, refused_create m.now (new_notification m.fresh u v req) st.db, k, rel)
        (released R t req.tenant_id (key_of R F services header req) st.store m.now_release h)
