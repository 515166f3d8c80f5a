-- ===== src/Health.antt =====
-- backend/app/services/health_service.py, and the readiness route of backend/app/routes/health.py.
use civic_pulse_24i3089_24i.Prelude.{
  ℕ, ◌≡◌, ◌↔◌, refl, Bool, true, false, ◌&&◌, List, [], ◌∷◌, ◌++◌, arith,
}
use civic_pulse_24i3089_24i.Text.{Str, codes}
use civic_pulse_24i3089_24i.Cache
use civic_pulse_24i3089_24i.Cache.{Redis, pong}
use civic_pulse_24i3089_24i.Repository.{Database}

pub record Readiness : Type 0 where
  pub status_code : ℕ
  pub status : Str
  pub failed : List Str

abbrev pub unless : Bool → Str → List Str
unless true name = []
unless false name = name ∷ []

abbrev pub readiness : List Str → Readiness
readiness [] = record { status_code = 200; status = codes "ready"; failed = [] }
readiness (name ∷ names) = record {
  status_code = 503;
  status = codes "unready";
  failed = name ∷ names;
}

module _ (r : Redis) (db : Database) where
  -- `db.ping` is false where the statement of `repo.ping()` raises.
  unfoldable pub failed_dependencies : db.State → r.State → List Str × r.State
  unfolding Cache.ping
  failed_dependencies d c =
      let (answers, c') = Cache.ping r c in
      (unless (db.ping d) (codes "postgres") ++ unless answers (codes "redis"), c')

  -- `ready`
  unfoldable pub ready : Bool → db.State → r.State → Readiness × r.State
  unfolding failed_dependencies
  ready true d c = (record { status_code = 503; status = codes "draining"; failed = [] }, c)
  ready false d c = let (failed, c') = failed_dependencies d c in (readiness failed, c')

  abbrev pub IsUp : Bool → db.State → r.State → Type 0
  IsUp draining d c = (draining ≡ false) × (db.ping d ≡ true) × ((Cache.ping r c).0 ≡ true)

  readiness-IsUp :
      (a b : Bool)
      → ((readiness (unless a (codes "postgres") ++ unless b (codes "redis"))).status_code ≡ 200)
        ↔ ((a ≡ true) × (b ≡ true))
  readiness-IsUp true true = ((λ h. (refl, refl)), (λ h. refl))
  readiness-IsUp true false = ((λ h. absurd (omega (arith, h))), (λ (_, h). cc))
  readiness-IsUp false true = ((λ h. absurd (omega (arith, h))), (λ (h, _). cc))
  readiness-IsUp false false = ((λ h. absurd (omega (arith, h))), (λ (h, _). cc))

  abbrev pub is_ready : Readiness
  is_ready = record { status_code = 200; status = codes "ready"; failed = [] }

  -- Which of the two does not answer, the database first.
  abbrev pub down : Bool → Bool → List Str
  down true true = []
  down true false = codes "redis" ∷ []
  down false true = codes "postgres" ∷ []
  down false false = codes "postgres" ∷ codes "redis" ∷ []

  readiness_up :
      (a b : Bool)
      → a ≡ true
      → b ≡ true
      → readiness (unless a (codes "postgres") ++ unless b (codes "redis")) ≡ is_ready
  readiness_up a b h k = rw (h, k)

  down-readiness :
      (a b : Bool)
      → (a && b) ≡ false
      → readiness (unless a (codes "postgres") ++ unless b (codes "redis"))
        ≡ record { status_code = 503; status = codes "unready"; failed = down a b }
  down-readiness true true h = cc
  down-readiness true false h = refl
  down-readiness false true h = refl
  down-readiness false false h = refl

  -- The status is 200 exactly when the pod is not draining, the database answers and Redis answers,
  -- and then the body says "ready" and names no failure. While it drains the answer is 503 and
  -- "draining", whatever else fails; else it is 503 and "unready" with the names of those that do
  -- not answer.
  pub ready-IsUp_iff :
      (draining : Bool) (d : db.State) (c : r.State)
      → (((ready draining d c).0.status_code ≡ 200) ↔ IsUp draining d c)
        × (IsUp draining d c → (ready draining d c).0 ≡ is_ready)
        × (draining ≡ true
            → (ready draining d c).0
              ≡ record { status_code = 503; status = codes "draining"; failed = [] })
        × (draining ≡ false
            → (db.ping d && (Cache.ping r c).0) ≡ false
            → (ready draining d c).0 ≡ record {
              status_code = 503;
              status = codes "unready";
              failed = down (db.ping d) (Cache.ping r c).0;
            })
  unfolding ready
  ready-IsUp_iff true d c = (
    ((λ h. absurd (omega (arith, h))), (λ (h, _, _). cc)),
    (λ (h, _, _). cc),
    (λ h. refl),
    (λ h k. cc),
  )
  ready-IsUp_iff false d c =
      let (to, from) = readiness-IsUp (db.ping d) (Cache.ping r c).0 in
      (
        ((λ h. (refl, (to h).0, (to h).1)), (λ (_, a, b). from (a, b))),
        (λ (_, a, b). readiness_up (db.ping d) (Cache.ping r c).0 a b),
        (λ h. cc),
        (λ h k. down-readiness (db.ping d) (Cache.ping r c).0 k),
      )
