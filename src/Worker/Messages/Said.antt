-- ===== src/Worker/Messages/Said.antt =====
-- What the request of a run says, compared with the messages that are stored.
use mathlib.Core.List.{append_assoc, map-append}
use agentpg.Base.{
  ◌≢◌, ◌≡◌, refl, sym, ap, subst, ◌∙◌, inl, inr, ◌⊎◌, Bool, true, false, List, [], ◌∷◌, ◌++◌, map,
  keep, none, some, Pairs, Option-cases,
}
use agentpg.Driver.{
  Bytes, ContentType, ContentBlock, MessageRole, Message, text, tool_use, tool_result, image,
  document, thinking, server_tool_use, web_search_result,
}
use agentpg.Anthropic.{
  Sdk, ApiRole, ApiBlock, ApiMessage, new_text_block, new_tool_use_block, new_tool_result_block,
}
use agentpg.Worker.Messages.{
  alternates, spoken, request_role, request_block, request_content, tool_input, sent, build_from,
  build_from-alternates, build_from-spoken, build_messages,
}

-- All blocks that are stored, in order, each with the role of its message.
abbrev pub stored : List Message → List (MessageRole × ContentBlock)
stored [] = []
stored (msg ∷ ms) = map (λ block. (msg.role, block)) msg.content ++ stored ms

-- The types that a request carries: text, the uses of tools and their results.
abbrev pub is_carried : MessageRole × ContentBlock → Bool
is_carried (role, block) = elim (block.type) [
  | text ↦ true
  | tool_use ↦ true
  | tool_result ↦ true
  | _ ↦ false
]

-- The assistant speaks as the assistant, and everyone else as the user.
abbrev pub Speaks : MessageRole → ApiRole → Type 0
Speaks role api =
    ((role ≡ MessageRole.assistant) × (api ≡ ApiRole.assistant))
    ⊎ ((role ≢ MessageRole.assistant) × (api ≡ ApiRole.user))

module _ (sdk : Sdk) where
  open sdk use {Json, nil, unmarshal}

  -- The input of a tool: nil where there is none or where it cannot be decoded.
  abbrev pub IsInput : Bytes → Json → Type 0
  IsInput input json =
      ((input ≢ []) × (unmarshal input ≡ some json))
      ⊎ (((input ≡ []) ⊎ (unmarshal input ≡ none)) × (json ≡ nil))

  -- A block of the request, and the stored one that it says with all that belongs to it.
  abbrev pub Carries : ContentBlock → ApiBlock Json → Type 0
  Carries block api =
      ((block.type ≡ text) × (api ≡ new_text_block block.text))
      ⊎ ((block.type ≡ tool_use)
          × ((json : Json) × IsInput block.tool_input json
              × (api ≡ new_tool_use_block block.tool_use_id json block.tool_name)))
      ⊎ ((block.type ≡ tool_result)
          × (api
              ≡ new_tool_result_block block.tool_result_for_use_id block.tool_content
                  block.is_error))

  abbrev pub Says : MessageRole × ContentBlock → ApiRole × ApiBlock Json → Type 0
  Says (role, block) (api_role, api) = Speaks role api_role × Carries block api

  role-Speaks : (role : MessageRole) → Speaks role (request_role role)
  unfolding request_role
  role-Speaks MessageRole.assistant = inl (refl, refl)
  role-Speaks MessageRole.user = inr (λ e. cc, refl)
  role-Speaks MessageRole.system = inr (λ e. cc, refl)
  role-Speaks (MessageRole.other name) = inr (λ e. cc, refl)

  tool_input-IsInput : (input : Bytes) → IsInput input (tool_input sdk input)
  tool_input-IsInput [] = inr (inl refl, refl)
  tool_input-IsInput (b ∷ bs) = elim (Option-cases (unmarshal (b ∷ bs))) [
    | inl bad ↦ inr (inr bad, rw bad refl)
    | inr (json, good) ↦ inl (λ e. cc, rw good refl)
  ]

  -- One block: what the request has of it, before the rest.
  block-Says :
      (role : MessageRole) (block : ContentBlock) (type : ContentType)
      → block.type ≡ type
      → (rest : List (MessageRole × ContentBlock)) (said : List (ApiRole × ApiBlock Json))
      → Pairs Says (keep is_carried rest) said
      → Pairs Says
          (keep is_carried ((role, block) ∷ rest))
          (map (λ b. (request_role role, b)) (request_block sdk type block) ++ said)
  block-Says role block text e rest said h = rw e ((role-Speaks role, inl (refl, refl)), h)
  block-Says role block tool_use e rest said h = rw e (
    (
      role-Speaks role,
      inr (
          inl (refl, (tool_input sdk block.tool_input, tool_input-IsInput block.tool_input, refl))),
    ),
    h,
  )
  block-Says role block tool_result e rest said h =
      rw e ((role-Speaks role, inr (inr (refl, refl))), h)
  block-Says role block image e rest said h = rw e h
  block-Says role block document e rest said h = rw e h
  block-Says role block thinking e rest said h = rw e h
  block-Says role block server_tool_use e rest said h = rw e h
  block-Says role block web_search_result e rest said h = rw e h
  block-Says role block (ContentType.other name) e rest said h = rw e h

  blocks-Says :
      (role : MessageRole) (blocks : List ContentBlock) (rest : List (MessageRole × ContentBlock))
      (said : List (ApiRole × ApiBlock Json))
      → Pairs Says (keep is_carried rest) said
      → Pairs Says
          (keep is_carried (map (λ block. (role, block)) blocks ++ rest))
          (map (λ b. (request_role role, b)) (request_content sdk blocks) ++ said)
  unfolding request_content
  blocks-Says role [] rest said h = h
  blocks-Says role (block ∷ blocks) rest said h =
      subst (λ l. Pairs Says (keep is_carried ((role, block) ∷ others)) l)
        (sym (
          ap (λ l. l ++ said)
            (map-append (with_role) (request_block sdk block.type block)
              (request_content sdk blocks))
          ∙ append_assoc (map with_role (request_block sdk block.type block))
              (map with_role (request_content sdk blocks)) said))
        (block-Says role block block.type refl others
          (map with_role (request_content sdk blocks) ++ said)
          (blocks-Says role blocks rest said h))
    where
      others : List (MessageRole × ContentBlock)
      others = map (λ b. (role, b)) blocks ++ rest

      with_role : ApiBlock Json → ApiRole × ApiBlock Json
      with_role b = (request_role role, b)

  sent-Says : (ms : List Message) → Pairs Says (keep is_carried (stored ms)) (sent sdk ms)
  unfolding sent
  sent-Says [] = tt
  sent-Says (msg ∷ ms) = blocks-Says msg.role msg.content (stored ms) (sent sdk ms) (sent-Says ms)

  -- The list that is built alternates between the user and the assistant and holds no empty message,
  -- whatever the stored messages are. Its blocks are, one for one and in order, the stored blocks that
  -- are text, uses of tools or results of tools, each with all that belongs to it: those of the
  -- assistant are said by the assistant, all others by the user.
  pub build_messages-alternate :
      (ms : List Message)
      → (built : List (ApiMessage Json)) × (build_messages sdk (some ms) ≡ some built)
        × (alternates none built ≡ true)
        × Pairs Says (keep is_carried (stored ms)) (spoken built)
  unfolding build_messages alternates spoken
  build_messages-alternate ms = (
    build_from sdk [] ms,
    refl,
    build_from-alternates sdk [] ms refl,
    subst (Pairs Says (keep is_carried (stored ms))) (sym (build_from-spoken sdk [] ms))
        (sent-Says ms),
  )
