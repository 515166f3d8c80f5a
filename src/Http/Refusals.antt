-- ===== src/Http/Refusals.antt =====
-- What the routes turn away, and the size of a page.
use civic_pulse_24i3089_24i.Prelude.{
  length-map, ℕ, ◌+◌, ◌≤◌, ◌≡◌, refl, sym, ap, ◌∙◌, Bool, true, Option, none, some, List, [], ◌∷◌,
  map, arith, length, ltb,
}
use civic_pulse_24i3089_24i.Text.{Str, codes}
use civic_pulse_24i3089_24i.Text.Number.{show}
use civic_pulse_24i3089_24i.Domain.{Category, Priority, Status}
use civic_pulse_24i3089_24i.Exceptions.{err, rate_limit_exceeded}
use civic_pulse_24i3089_24i.Json.{Json}
use civic_pulse_24i3089_24i.Schemas.{Pydantic}
use civic_pulse_24i3089_24i.Schemas.Body.{Loc}
use civic_pulse_24i3089_24i.Cache.{Redis}
use civic_pulse_24i3089_24i.Cache.Server.{IsServer}
use civic_pulse_24i3089_24i.RateLimiter.{
  Peer, client_ip, rate_key, retry_after_of, decide, hit, enforce, enforce_rate_limit,
}
use civic_pulse_24i3089_24i.Repository
use civic_pulse_24i3089_24i.Repository.{Complaint, Database}
use civic_pulse_24i3089_24i.Repository.Pages.{list-page}
use civic_pulse_24i3089_24i.Triage.{Provider}
use civic_pulse_24i3089_24i.Complaints
use civic_pulse_24i3089_24i.Complaints.{Place}
use civic_pulse_24i3089_24i.Http.{
  responds, ComplaintOut, complaint_page, error_body, limit_message, plain, handle, to_out, invalid,
}
use civic_pulse_24i3089_24i.Http.Routes.{
  Read, found, faulty, Param, absent, given, Query, Listing, read_number, read_query,
  assemble_listing, list_read, list_complaints, create_complaint,
}

module _ (r : Redis) (limit window : ℕ) where
  over_limit :
      (wait count : ℕ)
      → limit ≤ count
      → enforce r limit window (decide limit wait (some (count + 1)))
        ≡ err (rate_limit_exceeded wait)
  unfolding decide
  over_limit wait count h = let over : ltb limit (count + 1) ≡ true = ground arith in rw over

  limited :
      (server : IsServer r) (peer : Peer) (trust_proxy : Bool) (now : ℕ) (s : r.State)
      → server.up s ≡ true
      → limit ≤ server.count s (rate_key window (client_ip peer trust_proxy) now)
      → (enforce_rate_limit r limit window peer trust_proxy now s).0
        ≡ err (rate_limit_exceeded (retry_after_of window now))
  unfolding enforce_rate_limit hit
  limited server peer trust_proxy now s up over =
      let key = rate_key window (client_ip peer trust_proxy) now in
      let (_, reply, _) = server.incr_expire-up key (window + 1) s up in
      rw reply (over_limit (retry_after_of window now) (server.count s key) over)

module _ (message : Loc → Str) (p : Pydantic) (lower sha256 : Str → Str) (uuid_text : ℕ → Str)
    (r : Redis) {N : Type 0} (db : Database) (provider fallback : Provider N)
    (triage_ttl limit window : ℕ) (trust_proxy : Bool) where
  -- On a Redis server that answers, a client that has used up its requests of the window and sends
  -- a body that is JSON, valid as a complaint or not, is answered 429 with the seconds to wait, in
  -- the text and in Retry-After: the outside world, the metrics of triage and the session are as
  -- before.
  pub create_complaint-limited :
      (server : IsServer r) (peer : Peer) (body : Json) (id latency_ms : ℕ) (at : Str) (now : ℕ)
      (s : Place r N db)
      → server.up s.world.cache ≡ true
      → limit ≤ server.count s.world.cache (rate_key window (client_ip peer trust_proxy) now)
      → let wait = retry_after_of window now in
        let end =
          create_complaint message p lower sha256 uuid_text r db provider fallback triage_ttl limit
            window trust_proxy peer body id latency_ms at now s in
        (end.0
          ≡ responds (record {
            status_code = 429;
            body = error_body (limit_message wait);
            headers = (codes "Retry-After", show wait) ∷ [];
          }))
        × (end.1.session ≡ s.session)
        × (end.1.world.net ≡ s.world.net)
        × (end.1.world.metrics ≡ s.world.metrics)
  unfolding create_complaint handle
  create_complaint-limited server peer body id latency_ms at now s up over =
      rw (limited r limit window server peer trust_proxy now s.world.cache up over)
        (refl, refl, refl, refl)

read_number-bounds :
    (q : Param (Option ℕ)) (n : ℕ) → read_number 20 true 100 q ≡ some n → (1 ≤ n) × (n ≤ 100)
unfolding read_number
read_number-bounds absent n h = omega (arith, (let z : 20 ≡ n = cc h in z))
read_number-bounds (given none) n h = cc
read_number-bounds (given (some k)) n h = ground arith

assemble_listing-size :
    (c : Option (Option Category)) (p : Option (Option Priority)) (s : Option (Option Status))
    (page size : Option ℕ) (q : Listing)
    → assemble_listing c p s page size ≡ found q
    → size ≡ some q.page_size
assemble_listing-size (some c) (some p) (some s) (some page) (some size) q h = cc h
assemble_listing-size none p s page size q h = cc
assemble_listing-size (some c) none s page size q h = cc
assemble_listing-size (some c) (some p) none page size q h = cc
assemble_listing-size (some c) (some p) (some s) none size q h = cc
assemble_listing-size (some c) (some p) (some s) (some page) none q h = cc

read_query-size :
    (q : Query) (l : Listing) → read_query q ≡ found l → (1 ≤ l.page_size) × (l.page_size ≤ 100)
unfolding read_query
read_query-size q l h =
    read_number-bounds q.page_size l.page_size (assemble_listing-size _ _ _ _ _ l h)

module _ (message : Loc → Str) (r : Redis) {N : Type 0} (db : Database) where
  list_read-size :
      (m : Read Listing) (s : Place r N db) (items : List ComplaintOut) (total page page_size : ℕ)
      → ((l : Listing) → m ≡ found l → (1 ≤ l.page_size) × (l.page_size ≤ 100))
      → (list_read message r db m s).0
        ≡ responds (plain 200 (complaint_page items total page page_size))
      → (length items ≤ page_size) × (1 ≤ page_size) × (page_size ≤ 100)
  unfolding Complaints.list invalid
  list_read-size (faulty locs) s items total page page_size bound h = cc
  list_read-size (found l) s items total page page_size bound h =
      let (low, high) = bound l refl in
      let (fits, _, _) = list-page db l.filters l.page_size s.session l.page in
      let same : l.page_size ≡ page_size = cc h in
      let rows = (Repository.list db l.filters l.page l.page_size s.session).0 in
      let listed : map to_out rows ≡ items = cc h in
      let count : length items ≡ length rows = ap length (sym listed) ∙ length-map to_out rows in
      omega (arith, fits, low, high, same, count)

  -- A page that the listing answers has at most as many complaints as were asked for, and that is
  -- from 1 to 100: a request for more, or for none, gets no page.
  pub list_complaints-size :
      (q : Query) (s : Place r N db) (items : List ComplaintOut) (total page page_size : ℕ)
      → (list_complaints message r db q s).0
        ≡ responds (plain 200 (complaint_page items total page page_size))
      → (length items ≤ page_size) × (1 ≤ page_size) × (page_size ≤ 100)
  unfolding list_complaints
  list_complaints-size q s items total page page_size h =
      list_read-size (read_query q) s items total page page_size (read_query-size q) h
