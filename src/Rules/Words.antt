-- ===== src/Rules/Words.antt =====
-- The keyword tables of backend/app/providers/triage/rules.py.
use civic_pulse_24i3089_24i.Prelude.{List, [], ◌∷◌}
use civic_pulse_24i3089_24i.Text.{Str, codes}
use civic_pulse_24i3089_24i.Domain.{
  Category, water, electricity, sanitation, roads, streetlights, other,
}

-- The dictionary in its declaration order, as a function and the list of its keys.
unfoldable pub keywords : Category → List Str
keywords water =
    codes "water"
    ∷ codes "pipe"
    ∷ codes "burst"
    ∷ codes "leak"
    ∷ codes "flood"
    ∷ codes "tap"
    ∷ codes "supply"
    ∷ codes "pani"
    ∷ codes "tanker"
    ∷ codes "main line"
    ∷ codes "overflowing tank"
    ∷ codes "no water"
    ∷ []
keywords electricity =
    codes "electric"
    ∷ codes "electricity"
    ∷ codes "power"
    ∷ codes "outage"
    ∷ codes "load shedding"
    ∷ codes "loadshedding"
    ∷ codes "transformer"
    ∷ codes "wire"
    ∷ codes "bijli"
    ∷ codes "voltage"
    ∷ codes "meter"
    ∷ codes "shock"
    ∷ codes "sparking"
    ∷ []
keywords sanitation =
    codes "garbage"
    ∷ codes "trash"
    ∷ codes "waste"
    ∷ codes "sewage"
    ∷ codes "sewer"
    ∷ codes "gutter"
    ∷ codes "drain"
    ∷ codes "smell"
    ∷ codes "kachra"
    ∷ codes "overflow"
    ∷ codes "nala"
    ∷ codes "dump"
    ∷ codes "mosquito"
    ∷ []
keywords roads =
    codes "road"
    ∷ codes "pothole"
    ∷ codes "sarak"
    ∷ codes "asphalt"
    ∷ codes "speed breaker"
    ∷ codes "footpath"
    ∷ codes "crack"
    ∷ codes "bridge"
    ∷ codes "construction"
    ∷ codes "traffic signal"
    ∷ codes "manhole"
    ∷ []
keywords streetlights =
    codes "streetlight"
    ∷ codes "street light"
    ∷ codes "street-light"
    ∷ codes "lamp"
    ∷ codes "pole light"
    ∷ codes "light pole"
    ∷ codes "dark street"
    ∷ []
keywords other = []

abbrev pub keyword_categories : List Category
keyword_categories = water ∷ electricity ∷ sanitation ∷ roads ∷ streetlights ∷ []

unfoldable pub high_words : List Str
high_words =
    codes "burst"
    ∷ codes "flood"
    ∷ codes "fire"
    ∷ codes "sparking"
    ∷ codes "shock"
    ∷ codes "live wire"
    ∷ codes "danger"
    ∷ codes "emergency"
    ∷ codes "urgent"
    ∷ codes "injur"
    ∷ codes "accident"
    ∷ codes "collapse"
    ∷ codes "child"
    ∷ codes "hospital"
    ∷ codes "since fajr"
    ∷ codes "since yesterday"
    ∷ codes "entering"
    ∷ codes "open manhole"
    ∷ codes "no water for"
    ∷ codes "3 days"
    ∷ codes "three days"
    ∷ []

unfoldable pub low_words : List Str
low_words =
    codes "suggestion"
    ∷ codes "request"
    ∷ codes "minor"
    ∷ codes "whenever possible"
    ∷ codes "cosmetic"
    ∷ codes "paint"
    ∷ codes "faded"
    ∷ []
