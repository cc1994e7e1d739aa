-- ===== src/Relay/Bedrock/Conversion.antt =====
-- cmd/relay-core/aws_bedrock.go, `convertOpenAIRequestToNova`: which requests are converted, and what
-- becomes of their messages.
use test_enclave_newapi.Common.{
  ◌≡◌, ◌≢◌, ◌↔◌, ◌⊎◌, refl, sym, ap, ◌∙◌, inl, inr, true, false, ◌||◌, List, [], ◌∷◌, ◌++◌,
  Bool-cases, Result-cases, ok, ok_inj, append_assoc, append-nil,
}
use test_enclave_newapi.Text.{Bytes, codes, str_eq}
use test_enclave_newapi.Text.Laws.{eq_of_str_eq}
use test_enclave_newapi.Relay.Bedrock.Request.{
  ChatMessage, ChatRequest, NovaMessage, Turns, NovaRequest, is_system, is_turn, message_text,
  parse_nova_stop, convert_messages, tokens_in_range, config_of, none_left, no_turns, to_nova,
}
use test_enclave_newapi.Relay.Bedrock.Said.{Said, message_text-Said, Said-message_text}
use test_enclave_newapi.Relay.Bedrock.Settings.{
  InRange, tokens-InRange, InRange-tokens, Stops, stop-Stops, Stops-stop, Configured,
  config_of-Configured, Configured-unique,
}

abbrev pub IsSystem : Bytes → Type 0
IsSystem role = (role ≡ codes "system") ⊎ (role ≡ codes "developer")

abbrev pub IsTurn : Bytes → Type 0
IsTurn role = (role ≡ codes "user") ⊎ (role ≡ codes "assistant")

-- The messages, the texts of the system's ones, and the turns of the others, all in their order.
pub data Converts : List ChatMessage → List Bytes → List NovaMessage → Type 0 where
  no_more : Converts [] [] []
  prompt :
      (m : ChatMessage) (t : Bytes) {ms : List ChatMessage} {ss : List Bytes}
      {ts : List NovaMessage}
      → IsSystem m.role
      → Said m.content t
      → Converts ms ss ts
      → Converts (m ∷ ms) (t ∷ ss) ts
  turn :
      (m : ChatMessage) (t : Bytes) {ms : List ChatMessage} {ss : List Bytes}
      {ts : List NovaMessage}
      → IsTurn m.role
      → Said m.content t
      → Converts ms ss ts
      → Converts (m ∷ ms) ss (record { role = m.role; text = t } ∷ ts)

one_of_two : (role a b : Bytes) → (str_eq role a || str_eq role b) ≡ true → (role ≡ a) ⊎ (role ≡ b)
one_of_two role a b h = elim (Bool-cases (str_eq role a)) [
  | inl y ↦ inl (eq_of_str_eq role a y)
  | inr f ↦ inr (eq_of_str_eq role b (rw f at h))
]

turn_not_system : (role : Bytes) → IsTurn role → is_system role ≡ false
unfolding str_eq
turn_not_system role (inl e) = rw e refl
turn_not_system role (inr e) = rw e refl

system_role : (role : Bytes) → IsSystem role → is_system role ≡ true
unfolding str_eq
system_role role (inl e) = rw e refl
system_role role (inr e) = rw e refl

turn_role : (role : Bytes) → IsTurn role → is_turn role ≡ true
unfolding str_eq
turn_role role (inl e) = rw e refl
turn_role role (inr e) = rw e refl

-- What the messages add to the turns that are there.
record Added (ms : List ChatMessage) (t u : Turns) : Type 0 where
  prompts : List Bytes
  turns : List NovaMessage
  converts : Converts ms prompts turns
  system : u.system ≡ t.system ++ prompts
  messages : u.messages ≡ t.messages ++ turns

convert_messages-Added :
    (ms : List ChatMessage) (t u : Turns) → convert_messages ms t ≡ ok u → Added ms t u
unfolding convert_messages
convert_messages-Added [] t u h = record {
  prompts = [];
  turns = [];
  converts = no_more;
  system = rw (← ok_inj h) (sym (append-nil t.system));
  messages = rw (← ok_inj h) (sym (append-nil t.messages));
}
convert_messages-Added (m ∷ ms) t u h = elim (Result-cases (message_text m.content)) [
  | inl (_, e) ↦ absurd (cc (rw (e, convert_messages) at h))
  | inr (x, e) ↦
      let said = message_text-Said m.content x e in
      let n : NovaMessage = record { role = m.role; text = x } in
      elim (Bool-cases (is_system m.role)) [
        | inl y ↦
            let s =
              convert_messages-Added ms (record t { system = t.system ++ x ∷ [] }) u
                (rw (e, y, convert_messages) at h) in
            record {
              prompts = x ∷ s.prompts;
              turns = s.turns;
              converts = prompt m x (one_of_two m.role _ _ y) said s.converts;
              system = s.system ∙ append_assoc t.system (x ∷ []) s.prompts;
              messages = s.messages;
            }
        | inr f ↦ elim (Bool-cases (is_turn m.role)) [
          | inr k ↦ absurd (cc (rw (e, f, k, convert_messages) at h))
          | inl k ↦
              let s =
                convert_messages-Added ms (record t { messages = t.messages ++ n ∷ [] }) u
                  (rw (e, f, k, convert_messages) at h) in
              record {
                prompts = s.prompts;
                turns = n ∷ s.turns;
                converts = turn m x (one_of_two m.role _ _ k) said s.converts;
                system = s.system;
                messages = s.messages ∙ append_assoc t.messages (n ∷ []) s.turns;
              }
        ]
      ]
]

Converts-convert_messages :
    (ms : List ChatMessage) (ss : List Bytes) (ts : List NovaMessage) (t : Turns)
    → Converts ms ss ts
    → convert_messages ms t ≡ ok (record { system = t.system ++ ss; messages = t.messages ++ ts })
unfolding convert_messages
Converts-convert_messages _ _ _ t no_more =
    ap ok (rw (append-nil t.system, append-nil t.messages) refl)
Converts-convert_messages _ _ _ t (prompt m x {ms} {ss} {ts} y s c) =
    simp (Said-message_text m.content x s, system_role m.role y, convert_messages)
      (Converts-convert_messages ms ss ts (record t { system = t.system ++ x ∷ [] }) c
        ∙ ap (λ p. ok (record { system = p; messages = t.messages ++ ts }))
            (append_assoc t.system (x ∷ []) ss))
Converts-convert_messages _ _ _ t (turn m x {ms} {ss} {ts} y s c) =
    let n : NovaMessage = record { role = m.role; text = x } in
    simp
      (
        Said-message_text m.content x s,
        turn_not_system m.role y,
        turn_role m.role y,
        convert_messages,
      )
      (Converts-convert_messages ms ss ts (record t { messages = t.messages ++ n ∷ [] }) c
        ∙ ap (λ p. ok (record { system = t.system ++ ss; messages = p }))
            (append_assoc t.messages (n ∷ []) ts))

-- What a Nova request has of a chat request: the texts of the system and developer messages are its
-- system prompt, and those of the user and assistant messages its turns, of which there is one, all in
-- their order; no message has another role. The settings are the request's, with the stop texts.
pub record Converted (r : ChatRequest) (n : NovaRequest) : Type 0 where
  pub converts : Converts r.messages n.turns.system n.turns.messages
  pub spoken : n.turns.messages ≢ []
  pub in_range : InRange r.max_tokens
  pub stops : List Bytes
  pub stop : Stops r.stop stops
  pub config : Configured r stops n.config

left_over : {A : Type 0} (l : List A) → l ≢ [] → none_left l ≡ false
left_over [] n = absurd (n refl)
left_over (a ∷ l) n = refl

to_nova-Converted : (r : ChatRequest) (n : NovaRequest) → to_nova r ≡ ok n → Converted r n
unfolding to_nova
to_nova-Converted r n h = elim (Bool-cases (none_left r.messages)) [
  | inl y ↦ absurd (cc (rw (y, to_nova) at h))
  | inr l ↦ elim (Bool-cases (tokens_in_range r.max_tokens)) [
    | inr f ↦ absurd (cc (rw (l, f, to_nova) at h))
    | inl i ↦ elim (Result-cases (convert_messages r.messages no_turns)) [
      | inl (_, e) ↦ absurd (cc (rw (l, i, e, to_nova) at h))
      | inr (t, e) ↦ elim (Bool-cases (none_left t.messages)) [
        | inl y ↦ absurd (cc (rw (l, i, e, y, to_nova) at h))
        | inr s ↦ elim (Result-cases (parse_nova_stop r.stop)) [
          | inl (_, f) ↦ absurd (cc (rw (l, i, e, s, f, to_nova) at h))
          | inr (stops, f) ↦
              let w : record { turns = t; config = config_of r stops } ≡ n =
                ok_inj (rw (l, i, e, s, f, to_nova) at h) in
              rw (← w) (record {
                converts = added_converts r.messages t (convert_messages-Added _ no_turns t e);
                spoken = λ z. absurd (cc (rw z at s));
                in_range = tokens-InRange r.max_tokens i;
                stops = stops;
                stop = stop-Stops r.stop stops f;
                config = config_of-Configured r stops;
              })
        ]
      ]
    ]
  ]
]
  where
    added_converts :
        (ms : List ChatMessage) (t : Turns) → Added ms no_turns t → Converts ms t.system t.messages
    added_converts ms t a = rw (a.system, a.messages) a.converts

Converts-nonempty :
    (ms : List ChatMessage) (ss : List Bytes) (ts : List NovaMessage)
    → Converts ms ss ts
    → ts ≢ []
    → none_left ms ≡ false
Converts-nonempty _ _ _ no_more n = absurd (n refl)
Converts-nonempty _ _ _ (prompt m t y s c) n = refl
Converts-nonempty _ _ _ (turn m t y s c) n = refl

Converted-to_nova : (r : ChatRequest) (n : NovaRequest) → Converted r n → to_nova r ≡ ok n
unfolding to_nova
Converted-to_nova r n c =
    simp
      (
        Converts-nonempty r.messages n.turns.system n.turns.messages c.converts c.spoken,
        InRange-tokens r.max_tokens c.in_range,
        Converts-convert_messages r.messages n.turns.system n.turns.messages no_turns c.converts,
        left_over n.turns.messages c.spoken,
        Stops-stop r.stop c.stops c.stop,
        to_nova,
      )
      (ap (λ x. ok (record { turns = n.turns; config = x }))
        (Configured-unique r c.stops _ _ (config_of-Configured r c.stops) c.config))

-- A decoded chat request is converted to a Nova request exactly when every message has the role system,
-- developer, user or assistant and a content that is a text, null, or a list of parts with some text; one
-- message at least is of the user or the assistant; max_tokens is absent or from 0 to 1073741823; and
-- stop is absent, null, a text, or a list of texts and nulls. The Nova request then has the texts of the
-- system and developer messages as its system prompt and the others as its turns, all in their order,
-- and the request's settings, or none where no setting and no stop text is given.
pub to_nova_iff : (r : ChatRequest) (n : NovaRequest) → (to_nova r ≡ ok n) ↔ Converted r n
to_nova_iff r n = (to_nova-Converted r n, Converted-to_nova r n)
