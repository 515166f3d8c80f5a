-- ===== src/Complaints/Creation.antt =====
-- `create`: what is stored and answered, and when it can only succeed.
use civic_pulse_24i3089_24i.Prelude.{
  ℕ, ◌<◌, ◌^◌, ◌≤◌, ◌≡◌, refl, sym, ◌∙◌, ◌⊎◌, inl, inr, true, false, Option, none, some, ◌∷◌, arith,
  length, any,
}
use mathlib.Core.Path.{subst}
use civic_pulse_24i3089_24i.Text.{Str, codes, strip, has_unstorable}
use civic_pulse_24i3089_24i.Domain.{open_}
use civic_pulse_24i3089_24i.Exceptions.{Exn, Result, ok, err, validation_error}
use civic_pulse_24i3089_24i.Schemas.{Pydantic, TriageResult, is_line_break}
use civic_pulse_24i3089_24i.Schemas.Laws.{IsValid, IsSummary}
use civic_pulse_24i3089_24i.Schemas.Body.{ComplaintCreate, IsStorable}
use civic_pulse_24i3089_24i.Cache
use civic_pulse_24i3089_24i.Cache.{Redis}
use civic_pulse_24i3089_24i.Repository
use civic_pulse_24i3089_24i.Repository.{Complaint, Database, find_row}
use civic_pulse_24i3089_24i.Repository.Sessions.{IsDatabase, IsRow}
use civic_pulse_24i3089_24i.Triage
use civic_pulse_24i3089_24i.Triage.{World, TriageOutcome, Provider, cache_key, fallback_name}
use civic_pulse_24i3089_24i.Triage.Validity.{
  IsSound, Source, triage-IsGood, rules_provider, rules-Answers,
}
use civic_pulse_24i3089_24i.Json.{Json}
use civic_pulse_24i3089_24i.Rules
use civic_pulse_24i3089_24i.Rules.Clean.{triage_clean}
use civic_pulse_24i3089_24i.Rules.Summary.{triage_raises}
use civic_pulse_24i3089_24i.Complaints.{Place, new_complaint, drop_stats, store, created, create}
use civic_pulse_24i3089_24i.Complaints.Transitions.{committed-once}

-- No text of the body has a character that PostgreSQL refuses.
pub record IsClean (b : ComplaintCreate) : Type 0 where
  pub text : has_unstorable b.text ≡ false
  pub location : has_unstorable b.location ≡ false
  pub contact : (s : Str) → b.reporter_contact ≡ some s → has_unstorable s ≡ false

-- A name that its column takes.
pub record IsName (s : Str) : Type 0 where
  pub short : length s ≤ 32
  pub clean : has_unstorable s ≡ false

new_complaint-IsRow :
    (id now : ℕ) (b : ComplaintCreate) (o : TriageOutcome)
    → IsStorable b
    → IsClean b
    → IsValid o.result
    → has_unstorable o.result.summary ≡ false
    → IsName o.triaged_by
    → o.latency_ms < 2 ^ 31
    → IsRow (new_complaint id now b o)
unfolding new_complaint
new_complaint-IsRow id now b o h k v clean named small = record {
  text_long = h.text_long;
  text_short = h.text_short;
  location_long = h.location_long;
  location_short = h.location_short;
  contact_short = h.contact_short;
  summary_short = λ s e. (let z : o.result.summary ≡ s = cc e in rw (← z) v.summary.within);
  name_short = named.short;
  latency_small = small;
  text_clean = k.text;
  location_clean = k.location;
  contact_clean = k.contact;
  summary_clean = λ s e. (let z : o.result.summary ≡ s = cc e in rw (← z) clean);
  name_clean = named.clean;
}

module _ (r : Redis) {N : Type 0} (db : Database) (laws : IsDatabase db) where
  -- A complaint that fits the table and has a new id is inserted and committed, it is answered as
  -- stored, and the cached statistics are dropped.
  pub store_lem :
      (c : Complaint) (s : Place r N db)
      → IsRow c
      → find_row c.id (db.rows s.session) ≡ none
      → let end = store r db c s in
        (end.0 ≡ ok c)
        × (db.committed end.1.session ≡ c ∷ db.rows s.session)
        × (db.rows end.1.session ≡ c ∷ db.rows s.session)
        × (end.1.world ≡ (drop_stats r db s).world)
  unfolding store Repository.add
  store_lem c s fits absent =
      let (done, rows, committed) = laws.insert-ok c s.session fits absent in
      let d = (db.insert c s.session).1 in
      let (_, rows', committed') = laws.commit-ok d in
      rw done (rw (committed-once r db laws) (refl, committed' ∙ rows, rows' ∙ rows, refl))

module _ (p : Pydantic) (lower sha256 : Str → Str) (uuid_text : ℕ → Str) (r : Redis) {N : Type 0}
    (db : Database) (provider : Provider N) (triage_ttl : ℕ) (id : ℕ) (data_ : ComplaintCreate)
    (latency_ms : ℕ) (at : Str) (now : ℕ) where
  abbrev keyword_rules : Provider N
  keyword_rules = rules_provider N lower

  abbrev start : Place r N db → Result Complaint × Place r N db
  start =
      create p lower sha256 uuid_text r db provider keyword_rules triage_ttl id data_ latency_ms at
        now

  abbrev triaged : Place r N db → Result TriageOutcome × World r.State N
  triaged s =
      Triage.triage p lower sha256 r provider keyword_rules triage_ttl (uuid_text id) data_.text
        data_.location latency_ms at s.world

  abbrev read_cache : Place r N db → Result (Option Json)
  read_cache s =
      (Cache.get r
        (cache_key p lower sha256 r provider keyword_rules triage_ttl (uuid_text id) data_.text
          data_.location latency_ms at)
        s.world.cache).0

  abbrev answer : Place r N db → Result TriageResult
  answer s = (provider.run data_.text data_.location s.world.net).0

  -- What was classified, and by whom: the provider's result under its name, or where the provider
  -- raised that of the keyword rules under "rules:fallback".
  abbrev pub ClassifiedBy : Result TriageResult → TriageResult → Str → Type 0
  ClassifiedBy m t by =
      ((m ≡ ok t) × (by ≡ provider.name))
      ⊎ ((e : Exn) × (m ≡ err e)
          × (Rules.triage lower data_.text data_.location ≡ ok t)
          × (by ≡ codes "rules:fallback"))

  -- The answer is the complaint with the reporter's words and the classification, open, and it is
  -- the one row that is added to what is committed.
  pub record IsCreated (s : Place r N db) (end : Result Complaint × Place r N db) : Type 0 where
    pub complaint : Complaint
    pub result : TriageResult
    pub answered : end.0 ≡ ok complaint
    pub identified : complaint.id ≡ id
    pub opened : complaint.status ≡ open_
    pub worded :
        (complaint.text ≡ data_.text)
        × (complaint.location ≡ data_.location)
        × (complaint.reporter_contact ≡ data_.reporter_contact)
    pub classified :
        (complaint.category ≡ result.category)
        × (complaint.priority ≡ result.priority)
        × (complaint.ai_summary ≡ some result.summary)
        × IsSummary result.summary
    pub by : ClassifiedBy (answer s) result complaint.triaged_by
    pub timed :
        (complaint.triage_latency_ms ≡ latency_ms)
        × (complaint.created_at ≡ now)
        × (complaint.updated_at ≡ now)
    pub stored : db.committed end.1.session ≡ complaint ∷ db.rows s.session

  -- What the body, the provider's name and its results must be for the table to take the row.
  pub record IsAcceptable : Type 0 where
    pub fits : IsStorable data_
    pub clean : IsClean data_
    pub name : IsName provider.name
    pub small : latency_ms < 2 ^ 31
    pub results :
        (n : N) (t : TriageResult)
        → (provider.run data_.text data_.location n).0 ≡ ok t
        → has_unstorable t.summary ≡ false

  abbrev added : TriageOutcome → World r.State N → Place r N db → Result Complaint × Place r N db
  added o w s = store r db (new_complaint id now data_ o) (record s { world = w })

  abbrev From : Place r N db → TriageOutcome → Type 0
  From s o = ClassifiedBy (answer s) o.result o.triaged_by

  From-IsName :
      (s : Place r N db) (o : TriageOutcome) → IsAcceptable → From s o → IsName o.triaged_by
  From-IsName s o h (inl (_, e)) = rw e h.name
  From-IsName s o h (inr (_, _, _, e)) = rw e (record { short = omega arith; clean = refl })

  From-clean :
      (s : Place r N db) (o : TriageOutcome)
      → IsAcceptable
      → From s o
      → has_unstorable o.result.summary ≡ false
  From-clean s o h (inl (e, _)) = h.results s.world.net o.result e
  From-clean s o h (inr (_, _, e, _)) =
      triage_clean lower data_.text data_.location o.result h.clean.text h.clean.location e

  added-IsCreated :
      IsDatabase db
      → (o : TriageOutcome) (w : World r.State N) (s : Place r N db) → IsAcceptable
      → find_row id (db.rows s.session) ≡ none
      → IsValid o.result
      → From s o
      → o.latency_ms ≡ latency_ms
      → IsCreated s (added o w s)
  unfolding new_complaint
  added-IsCreated laws o w s h absent v from e =
      let c = new_complaint id now data_ o in
      let row =
        new_complaint-IsRow id now data_ o h.fits h.clean v (From-clean s o h from)
          (From-IsName s o h from) (rw e h.small) in
      let (answered, committed, _, _) = store_lem r db laws c (record s { world = w }) row absent in
      record {
        complaint = c;
        result = o.result;
        answered = answered;
        identified = refl;
        opened = refl;
        worded = (refl, refl, refl);
        classified = (refl, refl, refl, v.summary);
        by = from;
        timed = (e, refl, refl);
        stored = committed;
      }

  From-Source :
      (s : Place r N db) (o : TriageOutcome)
      → Source p lower sha256 r provider keyword_rules triage_ttl
          (uuid_text id)
          data_.text
          data_.location
          latency_ms
          at
          (answer s)
          o
      → From s o
  From-Source s o (inl h) = inl h
  From-Source s o (inr (e, raised, n, f, by)) = inr (e, raised, f, by)

  created-IsCreated :
      IsDatabase db
      → (m : Result TriageOutcome × World r.State N) (s : Place r N db) → IsAcceptable
      → find_row id (db.rows s.session) ≡ none
      → (o : TriageOutcome) × (m.0 ≡ ok o)
        × IsValid o.result
        × From s o
        × (o.latency_ms ≡ latency_ms)
      → IsCreated s
          (created p lower sha256 uuid_text r db provider keyword_rules triage_ttl id now data_ m s)
  created-IsCreated laws (err e, w) s h absent (o, k, v, by, _) = cc
  created-IsCreated laws (ok q, w) s h absent (o, k, v, by, l) =
      let same : q ≡ o = cc k in
      subst (λ x. IsCreated s (added x w s)) (sym same) (added-IsCreated laws o w s h absent v by l)

  -- No citizen sees a failing AI provider: on a database that carries out its statements, with the
  -- keyword rules as the fallback, a body that passed validation, a location on one line, nothing
  -- cached for the complaint, a provider whose results are valid by the schema and whose name fits
  -- its column, neither U+0000 nor a surrogate in any text, a latency below 2 ^ 31 milliseconds, and a new id, `create`
  -- answers the complaint and commits it, whatever the provider answers or raises.
  pub create-IsCreated :
      IsDatabase db
      → (s : Place r N db) → IsAcceptable
      → any is_line_break (strip data_.location) ≡ false
      → IsSound p lower sha256 r provider keyword_rules triage_ttl
          (uuid_text id)
          data_.text
          data_.location
          latency_ms
          at
          provider
      → find_row id (db.rows s.session) ≡ none
      → read_cache s ≡ ok none
      → IsCreated s (start s)
  unfolding create
  create-IsCreated laws s h flat sound absent missed =
      let (o, answered, v, source, l) =
        triage-IsGood p lower sha256 r provider keyword_rules triage_ttl (uuid_text id) data_.text
          data_.location latency_ms at (rules-Answers N lower data_.text data_.location flat) sound
          s.world missed in
      created-IsCreated laws (triaged s) s h absent (o, answered, v, From-Source s o source, l)

  -- Where the provider raises, nothing is cached, and the location has a line break and at most 116
  -- characters once stripped, `create` answers the ValidationError of the keyword rules and the
  -- session is not touched.
  pub create_raises :
      (s : Place r N db) (e : Exn) (n : N)
      → read_cache s ≡ ok none
      → provider.run data_.text data_.location s.world.net ≡ (err e, n)
      → any is_line_break (strip data_.location) ≡ true
      → length (strip data_.location) ≤ 116
      → ((start s).0 ≡ err validation_error) × ((start s).1.session ≡ s.session)
  unfolding create Triage.triage
  create_raises s e n missed raised broken fits =
      let h = triage_raises lower data_.text data_.location broken fits in
      rw (missed, Triage.on_cached)
        (rw (raised, Triage.on_miss) (rw (h, Triage.on_answer) (refl, refl)))
