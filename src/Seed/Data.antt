-- ===== src/Seed/Data.antt =====
-- The table `SEEDS` of backend/app/seed.py.
use civic_pulse_24i3089_24i.Prelude.{ℕ, Option, none, some, List, [], ◌∷◌, ◌++◌}
use civic_pulse_24i3089_24i.Text.{Str, codes}
use civic_pulse_24i3089_24i.Domain.{Status, open_, in_progress, resolved, rejected}

-- (text, location, contact, status, hours_ago)
pub record Seed : Type 0 where
  pub text : Str
  pub location : Str
  pub contact : Option Str
  pub status : Status
  pub hours_ago : ℕ

abbrev pub seed : Str → Str → Option Str → Status → ℕ → Seed
seed text location contact status hours_ago = record {
  text = text;
  location = location;
  contact = contact;
  status = status;
  hours_ago = hours_ago;
}

-- the first half of the table and the second
abbrev first_seeds : List Seed
first_seeds =
    seed
      (codes
        "Burst water main flooding Street 12 since fajr, water entering ground floors of three houses.")
      (codes "G-11/3 Street 12, Islamabad") (some (codes "0300-1234567")) open_ 2
    ∷ seed
        (codes
          "Pani nahi aa raha for 3 days in our block, tanker mafia charging Rs 4000 per tanker.")
        (codes "Block C, North Nazimabad, Karachi") none in_progress 30
    ∷ seed
        (codes "Bijli gone since 9 pm, transformer made loud blast and sparking near the masjid.")
        (codes "Mohalla Qasimabad, Hyderabad") (some (codes "0333-9876543")) open_ 5
    ∷ seed
        (codes
          "Gutter overflowing in front of school gate, children walking through sewage every morning.")
        (codes "Samanabad main road, Lahore") none open_ 8
    ∷ seed
        (codes "Huge pothole on the sarak near Chandni Chowk, two bikes already fell last night.")
        (codes "Murree Road, Chandni Chowk, Rawalpindi") (some (codes "0312-5550001")) in_progress
        50
    ∷ seed
        (codes
          "Streetlight outside house no 45 is not working for two weeks, street is very dark at night.")
        (codes "F-7/2 Street 21, Islamabad") none resolved 300
    ∷ seed
        (codes "Kachra not picked up for one week, smell is unbearable and mosquitoes everywhere.")
        (codes "Gulshan-e-Iqbal Block 13, Karachi") none open_ 20
    ∷ seed
        (codes
          "Load shedding 10 hours daily in our area even though schedule says 4 hours, please check.")
        (codes "Satellite Town, Gujranwala") (some (codes "0301-2223334")) open_ 72
    ∷ seed
        (codes "Water pipe leaking near the park since Eid, clean water wasting on road all day.")
        (codes "Model Town Block H, Lahore") none resolved 500
    ∷ seed
        (codes
          "Open manhole without cover on main street, very dangerous for children and elderly people.")
        (codes "Saddar, Peshawar") (some (codes "0345-1112223")) in_progress 12
    ∷ seed
        (codes
          "Street light pole bent after storm and wires hanging low, please remove before accident.")
        (codes "Bahria Town Phase 4, Rawalpindi") none open_ 16
    ∷ seed
        (codes
          "Sewer line choked, dirty water coming back into our washrooms, whole lane affected.")
        (codes "Shah Faisal Colony, Karachi") (some (codes "0321-4445556")) open_ 6
    ∷ seed
        (codes
          "Road construction left half finished for two months, dust everywhere and traffic jam daily.")
        (codes "Canal Road near Thokar, Lahore") none rejected 900
    ∷ seed
        (codes "Voltage fluctuation daily in evening, fridge and fan motors burnt in many houses.")
        (codes "Gulberg III, Lahore") (some (codes "0302-7778889")) open_ 40
    ∷ seed
        (codes
          "Garbage dump near the nala is on fire, black smoke entering houses, people coughing.")
        (codes "Korangi Crossing, Karachi") none in_progress 3
    ∷ seed
        (codes
          "Tap water is coming yellow and smelly since yesterday, people falling ill in our street.")
        (codes "Wahdat Colony, Faisalabad") (some (codes "0306-3334445")) open_ 10
    ∷ seed
        (codes
          "Suggestion: please paint the faded zebra crossing near the girls college whenever possible.")
        (codes "Jail Road, Lahore") none open_ 120
    ∷ []

abbrev last_seeds : List Seed
last_seeds =
    seed
      (codes
        "Speed breaker too high near petrol pump, car bottoms getting damaged, request to fix it.")
      (codes "University Road, Peshawar") none resolved 700
    ∷ seed
        (codes
          "Streetlights of whole block switched on in daytime and off at night, timer seems faulty.")
        (codes "DHA Phase 2, Karachi") (some (codes "0315-6667778")) open_ 26
    ∷ seed
        (codes
          "Electric meter reading wrong, bill came Rs 45000 for a two room house, need inspection.")
        (codes "Johar Town Block R, Lahore") (some (codes "0308-1231231")) in_progress 96
    ∷ seed
        (codes
          "Drain water standing in the street for 5 days after rain, dengue mosquitoes breeding.")
        (codes "Shadman Colony, Multan") none open_ 60
    ∷ seed (codes "Main water supply line burst near the chowk, road flooded and shops closed.")
        (codes "Liaquat Bazaar, Quetta") (some (codes "0331-9090909")) open_ 1
    ∷ seed (codes "Cracks in the bridge railing on the canal, one portion already fell into water.")
        (codes "Mall Road bridge, Lahore") none in_progress 44
    ∷ seed
        (codes
          "Live wire fell on the road after the storm, current in the puddle, danger for everyone.")
        (codes "Hayatabad Phase 3, Peshawar") (some (codes "0334-2020202")) open_ 4
    ∷ seed
        (codes
          "Park benches are broken and swings are rusty, kids cannot play, minor repair needed.")
        (codes "F-9 Park, Islamabad") none open_ 200
    ∷ seed
        (codes
          "Sanitation staff not coming to our mohalla, people throwing trash on the empty plot.")
        (codes "Lyari, Karachi") none rejected 400
    ∷ seed
        (codes "No water for 5 days in the flats, old people carrying buckets from ground floor.")
        (codes "Clifton Block 2, Karachi") (some (codes "0322-5656565")) in_progress 90
    ∷ seed
        (codes
          "Transformer oil leaking and it is making buzzing noise, WAPDA line staff not responding.")
        (codes "Madina Town, Faisalabad") none open_ 18
    ∷ seed
        (codes
          "Pothole filled with water near the hospital gate, ambulances slowing down, urgent please.")
        (codes "Jinnah Hospital road, Lahore") (some (codes "0304-8080808")) open_ 7
    ∷ seed
        (codes
          "Street light near the bus stop is flickering all night, women feel unsafe waiting there.")
        (codes "I-8 Markaz, Islamabad") none resolved 350
    ∷ seed
        (codes "Stray dogs in large numbers near the school, children are scared to walk to class.")
        (codes "Cantt area, Sialkot") none open_ 36
    ∷ seed
        (codes "Noise from marriage hall generator till 2 am every night, residents cannot sleep.")
        (codes "Allama Iqbal Town, Lahore") (some (codes "0311-4343434")) open_ 55
    ∷ seed (codes "Sewage mixing with drinking water line, whole street getting stomach problems.")
        (codes "Orangi Town Sector 5, Karachi") (some (codes "0317-2121212")) in_progress 14
    ∷ seed
        (codes
          "Footpath tiles broken and uneven in front of the market, an old man fell yesterday.")
        (codes "Blue Area, Islamabad") none open_ 22
    ∷ []

unfoldable pub seeds : List Seed
seeds = first_seeds ++ last_seeds
