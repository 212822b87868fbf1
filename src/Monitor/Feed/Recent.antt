-- ===== src/Monitor/Feed/Recent.antt =====
-- The feed keeps the most recent alerts.
use quake_mesh.Base.{
  ◌≡◌, refl, sym, ap, ◌∙◌, inl, inr, ℕ, zero, suc, ◌≤◌, List, [], ◌∷◌, length, ltb, arith,
  Bool-cases,
}
use quake_mesh.Base.Text.{Text}
use quake_mesh.Storage.{Millis}
use quake_mesh.Monitor.Feed.{
  Alert, Parsed, Store, add, alert_of, first_of, keep_recent, list, max_alerts,
}

-- One alert as it comes in.
pub record Call : Type 0 where
  pub now : Millis
  pub node : Text
  pub app : Text
  pub topic : Text
  pub payload : Text

module _ (unmarshal : Text → Parsed) where
  abbrev pub add_call : Call → Store → Store
  add_call c s = (add unmarshal c.now c.node c.app c.topic c.payload s).1

  abbrev pub alert_for : Call → Alert
  alert_for c = alert_of c.now c.node c.app c.topic c.payload (unmarshal c.payload)

  unfoldable pub add_all : List Call → Store → Store
  add_all [] s = s
  add_all (c ∷ calls) s = add_all calls (add_call c s)

  -- The alerts of the calls, newest first, before earlier ones.
  abbrev pub newest_first : List Call → List Alert → List Alert
  newest_first [] earlier = earlier
  newest_first (c ∷ calls) earlier = newest_first calls (alert_for c ∷ earlier)

first_of-short : (n : ℕ) (l : List Alert) → length l ≤ n → first_of n l ≡ l
unfolding first_of
first_of-short zero [] fits = refl
first_of-short zero (a ∷ l) fits = absurd (ground (arith, fits))
first_of-short (suc n) [] fits = refl
first_of-short (suc n) (a ∷ l) fits = ap (λ t. a ∷ t) (first_of-short n l (omega (arith, fits)))

keep_recent-first_of : (l : List Alert) → keep_recent l ≡ first_of max_alerts l
keep_recent-first_of l = elim (Bool-cases (ltb max_alerts (length l))) [
  | inl long ↦ rw long refl
  | inr short ↦ rw short (sym (first_of-short max_alerts l (ground (arith, short))))
]

length-first_of : (n : ℕ) (l : List Alert) → length (first_of n l) ≤ n
unfolding first_of
length-first_of zero l = omega arith
length-first_of (suc n) [] = omega arith
length-first_of (suc n) (a ∷ l) = omega (arith, length-first_of n l)

first_of-first_of : (n m : ℕ) (l : List Alert) → n ≤ m → first_of n (first_of m l) ≡ first_of n l
unfolding first_of
first_of-first_of zero m l low = refl
first_of-first_of (suc n) zero l low = absurd (ground (arith, low))
first_of-first_of (suc n) (suc m) [] low = refl
first_of-first_of (suc n) (suc m) (a ∷ l) low =
    ap (λ t. a ∷ t) (first_of-first_of n m l (omega (arith, low)))

-- Lists that start alike still do with one more in front.
first_of-cons :
    (n : ℕ) (a : Alert) (l l' : List Alert)
    → first_of (suc n) l ≡ first_of (suc n) l'
    → first_of (suc n) (a ∷ l) ≡ first_of (suc n) (a ∷ l')
unfolding first_of
first_of-cons n a l l' same =
    ap (λ t. a ∷ t)
      (sym (first_of-first_of n (suc n) l (omega arith))
        ∙ ap (first_of n) same
        ∙ first_of-first_of n (suc n) l' (omega arith))

first_of-newest_first :
    (unmarshal : Text → Parsed) (n : ℕ) (calls : List Call) (l l' : List Alert)
    → first_of (suc n) l ≡ first_of (suc n) l'
    → first_of (suc n) (newest_first unmarshal calls l)
      ≡ first_of (suc n) (newest_first unmarshal calls l')
first_of-newest_first unmarshal n [] l l' same = same
first_of-newest_first unmarshal n (c ∷ calls) l l' same =
    first_of-newest_first unmarshal n calls (alert_for unmarshal c ∷ l) (alert_for unmarshal c ∷ l')
      (first_of-cons n (alert_for unmarshal c) l l' same)

-- After any alerts came in, the feed lists the hundred newest of them and of the earlier ones, newest
-- first, and all of them where they are no more.
pub list-add_all :
    (unmarshal : Text → Parsed) (calls : List Call) (s : Store)
    → length s.alerts ≤ max_alerts
    → list (add_all unmarshal calls s) ≡ first_of max_alerts (newest_first unmarshal calls (list s))
unfolding add_all list add
list-add_all unmarshal [] s fits = sym (first_of-short max_alerts s.alerts fits)
list-add_all unmarshal (c ∷ calls) s fits =
    let l : List Alert = alert_for unmarshal c ∷ s.alerts in
    let recent = keep_recent-first_of l in
    list-add_all unmarshal calls (record s { alerts = keep_recent l })
      (rw recent (length-first_of max_alerts l))
    ∙ first_of-newest_first unmarshal 99 calls (keep_recent l) l
        (ap (first_of 100) recent ∙ first_of-first_of 100 100 l (omega arith))
