-- ===== src/Monitor/Feed.antt =====
-- monitor/internal/sosfeed/sosfeed.go: the calls for help that a monitor keeps, newest first. JSON is a
-- parameter.
pub mod Recent
use quake_mesh.Base.{ℕ, zero, suc, List, [], ◌∷◌, length, ltb, ◌==◌, if◌then◌else◌}
use quake_mesh.Base.Text.{Text, text_eq}
use quake_mesh.Storage.{Float64, Millis}

-- What `json.Unmarshal` makes of a payload, with zero values for what it does not set.
pub record Parsed : Type 0 where
  pub text : Text
  pub lat : Float64
  pub lon : Float64
  pub accuracy_m : Float64
  pub sent_at : Millis

pub record Alert : Type 0 where
  pub received_at : Millis
  pub node_id : Text
  pub app_id : Text
  pub topic : Text
  pub text : Text
  pub lat : Float64
  pub lon : Float64
  pub accuracy_m : Float64
  pub sent_at : Millis
  pub raw_payload : Text

abbrev pub max_alerts : ℕ
max_alerts = 100

pub record Store : Type 0 where
  pub alerts : List Alert

unfoldable pub new : Store
new = record { alerts = [] }

-- `alerts[:n]` of a longer slice.
unfoldable pub first_of : ℕ → List Alert → List Alert
first_of zero l = []
first_of (suc n) [] = []
first_of (suc n) (a ∷ l) = a ∷ first_of n l

abbrev pub alert_of : Millis → Text → Text → Text → Text → Parsed → Alert
alert_of now node app topic payload p = record {
  received_at = now;
  node_id = node;
  app_id = app;
  topic = topic;
  text = p.text;
  lat = p.lat;
  lon = p.lon;
  accuracy_m = p.accuracy_m;
  sent_at = p.sent_at;
  raw_payload = if p.text == [] then payload else [];
}

abbrev pub keep_recent : List Alert → List Alert
keep_recent l = if ltb max_alerts (length l) then first_of max_alerts l else l

unfoldable pub add : (Text → Parsed) → Millis → Text → Text → Text → Text → Store → Alert × Store
unfolding first_of
add unmarshal now node app topic payload s =
    let alert = alert_of now node app topic payload (unmarshal payload) in
    (alert, record s { alerts = keep_recent (alert ∷ s.alerts) })

unfoldable pub list : Store → List Alert
list s = s.alerts
