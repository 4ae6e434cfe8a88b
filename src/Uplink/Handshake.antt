-- ===== src/Uplink/Handshake.antt =====
-- A connected uplink has sent its whole request and had a success for it.
use rtkbase.Prelude.{
  ℕ, ◌<◌, ◌≡◌, refl, ap, sym, ◌∙◌, ◌⊎◌, inl, inr, Bool, true, false, ◌&&◌, List, ◌++◌, Option, none,
  some, arith, length, leb, ◌==◌, take, Bool-cases, append-nil, ◌>>=◌, and_true, if◌then◌else◌,
}
use rtkbase.Lwip.{Socket}
use rtkbase.Lwip.SendLoop.{send_from-Sent, Ending-cases, drop_whole}
use rtkbase.Caster.Request.{until_nul}
use rtkbase.Uplink.Connect.{
  Target, Attempt, response_is_success, post_request, source_request, send_all, is_accepted,
  request_on, ntrip_connect_v2, ntrip_connect_v1_source, ntrip_connect,
}

leb-false : (m n : ℕ) → leb m n ≡ false → n < m
leb-false m n h = ground arith

module _ (socket : Socket) where
  open socket use {State, wire}

  -- The attempt's socket has carried the whole request, of less than 512 characters, and nothing after it;
  -- the reply is a success.
  pub record Established (a : Attempt State) (request : List ℕ) (net' : State) : Type 0 where
    pub net : State
    pub opened : a.opened ≡ some net
    pub sent : wire net' ≡ wire net ++ request
    pub short : length request < 512
    pub reply : List ℕ
    pub replied : a.reply ≡ some reply
    pub success : response_is_success (until_nul (take 255 reply)) ≡ true

  send_all_lem :
      (net : State) (text : List ℕ)
      → (ok : Bool) × (net' : State) × (send_all socket net text ≡ some (ok, net'))
        × (ok ≡ true → wire net' ≡ wire net ++ text)
  unfolding send_all
  send_all_lem net text =
      let (s, run, v) = send_from-Sent socket 0 net text 0 (omega arith) in
      elim (Ending-cases s.ending) [
        | inl e ↦ (
          true,
          s.net,
          rw (run, ◌>>=◌, e) refl,
          λ t.
              sym (append-nil (wire s.net))
              ∙ (ap (λ (x : List ℕ). wire s.net ++ x) (sym (drop_whole text s.offset (v.all_if e)))
                  ∙ v.on_wire),
        )
        | inr (inl e) ↦ (false, s.net, rw (run, ◌>>=◌, e) refl, λ t. absurd (ground (arith, t)))
        | inr (inr (inl e)) ↦
            (false, s.net, rw (run, ◌>>=◌, e) refl, λ t. absurd (ground (arith, t)))
        | inr (inr (inr (errno, e))) ↦
            (false, s.net, rw (run, ◌>>=◌, e) refl, λ t. absurd (ground (arith, t)))
      ]

  is_accepted_lem :
      (r : Option (List ℕ)) (nonblocking : Bool)
      → is_accepted socket r nonblocking ≡ true
      → (reply : List ℕ) × (r ≡ some reply)
        × (response_is_success (until_nul (take 255 reply)) ≡ true)
  unfolding is_accepted
  is_accepted_lem none nonblocking h = absurd (ground arith)
  is_accepted_lem (some reply) nonblocking h =
      (reply, refl, (and_true (response_is_success (until_nul (take 255 reply))) nonblocking h).0)

  -- Nothing, or an established connection.
  abbrev Result : Attempt State → List ℕ → Option State → Type 0
  Result a request none = Unit
  Result a request (some net') = Established a request net'

  request_on_lem :
      (a : Attempt State) (request : List ℕ)
      → (r : Option State) × (request_on socket a request ≡ some r) × Result a request r
  unfolding request_on
  request_on_lem a request = go a.opened refl
    where
      after : (a : Attempt State) (request : List ℕ) → Option State → Option (Option State)
      after a request o = elim o [
        | none ↦ some none
        | some net ↦
            if leb 512 (length request)
            then some none
            else send_all socket net request >>= (λ done.
              some (
                if done.0 && is_accepted socket a.reply a.nonblocking_ok
                then some done.1
                else none))
      ]

      go :
          (o : Option State)
          → a.opened ≡ o
          → (r : Option State) × (request_on socket a request ≡ some r) × Result a request r
      go none e = (none, ap (after a request) e, tt)
      go (some net) e =
          let (ok, net', run, whole) = send_all_lem net request in
          elim (Bool-cases (leb 512 (length request))) [
            | inl f ↦ (none, ap (after a request) e ∙ rw f refl, tt)
            | inr f ↦ elim (Bool-cases (ok && is_accepted socket a.reply a.nonblocking_ok)) [
              | inr g ↦ (none, ap (after a request) e ∙ rw (f, run, ◌>>=◌, g) refl, tt)
              | inl g ↦
                  let (all_out, good) =
                    and_true ok (is_accepted socket a.reply a.nonblocking_ok) g in
                  let (reply, replied, success) = is_accepted_lem a.reply a.nonblocking_ok good in
                  (
                    some net',
                    ap (after a request) e ∙ rw (f, run, ◌>>=◌, g) refl,
                    record {
                      net = net;
                      opened = e;
                      sent = whole all_out;
                      short = leb-false 512 (length request) f;
                      reply = reply;
                      replied = replied;
                      success = success;
                    },
                  )
            ]
          ]

  v1_lem :
      (u : Target) (a : Attempt State)
      → (r : Option State) × (ntrip_connect_v1_source socket u a ≡ some r)
        × ((r ≡ none)
            ⊎ ((net : State) × (password : List ℕ) × (r ≡ some net)
                × (u.password ≡ some password)
                × Established a (source_request u password) net))
  unfolding ntrip_connect_v1_source
  v1_lem u a = go u.password refl
    where
      attempt : Option (List ℕ) → Option (Option State)
      attempt p = elim p [
        | none ↦ some none
        | some password ↦
            if length password == 0
            then some none
            else request_on socket a (source_request u password)
      ]

      Outcome : Option State → Type 0
      Outcome r =
          (r ≡ none)
          ⊎ ((net : State) × (password : List ℕ) × (r ≡ some net)
              × (u.password ≡ some password)
              × Established a (source_request u password) net)

      finish :
          (password : List ℕ)
          → u.password ≡ some password
          → (r : Option State) → Result a (source_request u password) r
          → Outcome r
      finish password e none res = inl refl
      finish password e (some net) res = inr (net, password, refl, e, res)

      go :
          (p : Option (List ℕ))
          → u.password ≡ p
          → (r : Option State) × (ntrip_connect_v1_source socket u a ≡ some r) × Outcome r
      go none e = (none, ap attempt e, inl refl)
      go (some password) e =
          let (r, run, res) = request_on_lem a (source_request u password) in
          elim (Bool-cases (length password == 0)) [
            | inl f ↦ (none, ap attempt e ∙ rw f refl, inl refl)
            | inr f ↦ (r, ap attempt e ∙ rw f run, finish password e r res)
          ]

  -- ntrip_connect ends, and gives a connection only after a whole request of version 2 or, where the uplink
  -- has a password, of version 1 has gone out on it and has had a success as its reply.
  pub ntrip_connect-Established :
      (encode : ℕ → List ℕ → Option (List ℕ)) (u : Target) (a2 a1 : Attempt State)
      → (r : Option State) × (ntrip_connect socket encode u a2 a1 ≡ some r)
        × ((r ≡ none)
            ⊎ (((net : State) × (r ≡ some net) × Established a2 (post_request encode u) net)
                ⊎ ((net : State) × (password : List ℕ) × (r ≡ some net)
                    × (u.password ≡ some password)
                    × Established a1 (source_request u password) net)))
  unfolding ntrip_connect ntrip_connect_v2
  ntrip_connect-Established encode u a2 a1 =
      let (r, run, res) = request_on_lem a2 (post_request encode u) in
      let (r1, run1, res1) = v1_lem u a1 in go r run res r1 run1 res1
    where
      Outcome : Option State → Type 0
      Outcome r =
          (r ≡ none)
          ⊎ (((net : State) × (r ≡ some net) × Established a2 (post_request encode u) net)
              ⊎ ((net : State) × (password : List ℕ) × (r ≡ some net)
                  × (u.password ≡ some password)
                  × Established a1 (source_request u password) net))

      go :
          (r : Option State)
          → request_on socket a2 (post_request encode u) ≡ some r
          → Result a2 (post_request encode u) r
          → (r1 : Option State) → ntrip_connect_v1_source socket u a1 ≡ some r1
          → (r1 ≡ none)
            ⊎ ((net : State) × (password : List ℕ) × (r1 ≡ some net)
                × (u.password ≡ some password)
                × Established a1 (source_request u password) net)
          → (r' : Option State) × (ntrip_connect socket encode u a2 a1 ≡ some r') × Outcome r'
      go (some net) run res r1 run1 res1 =
          (some net, rw (ntrip_connect, run) refl, inr (inl (net, refl, res)))
      go none run res r1 run1 res1 =
          (r1, rw (ntrip_connect, run) run1, (elim res1 [ inl e ↦ inl e | inr e ↦ inr (inr e) ]))
