-- ===== src/Transfer/Pieces.antt =====
-- The pieces of a file on their way from `submit` of src/looma/orchestrator/agents.py to the queue
-- of agent/looma_agent/control/tasks.py.
use mathlib.Core.List.{append_assoc}
use looma.Base.{
  length-drop, string_eq, nat_eq, length, take, drop, take-append-drop, ℕ, zero, suc, ◌≤◌, String,
  ◌≡◌, refl, sym, ap, ◌∙◌, true, false, List, [], ◌∷◌, ◌++◌, arith,
}
use looma.Hub.{ServerMessage, InputFile, input_chunk}
use looma.Hub.Tasks.{chunks, chunk_bytes, chunk_messages}
use looma.Transfer.{Declared, Item, piece}

abbrev pub item_of : ServerMessage → List Item
item_of (input_chunk task_id name bytes last) = piece name bytes last ∷ []
item_of _ = []

-- What a node files of the messages of the orchestrator: the chunks of input, in their order.
abbrev pub items_of : List ServerMessage → List Item
items_of [] = []
items_of (m ∷ ms) = item_of m ++ items_of ms

-- What a node is told of the inputs, as it keeps it.
abbrev pub declared_all : List InputFile → List Declared
declared_all [] = []
declared_all (f ∷ fs) =
    record { name = f.name; size_bytes = f.size_bytes; digest = f.digest } ∷ declared_all fs

abbrev pub concat : List (List ℕ) → List ℕ
concat [] = []
concat (c ∷ cs) = c ++ concat cs

-- The chunks of a file are the file.
pub concat-chunks : (f : ℕ) (bytes : List ℕ) → length bytes ≤ f → concat (chunks f bytes) ≡ bytes
unfolding chunks
concat-chunks zero [] h = refl
concat-chunks zero (b ∷ bs) h = absurd (omega (arith, h))
concat-chunks (suc f) [] h = refl
concat-chunks (suc f) (b ∷ bs) h =
    ap (λ r. take chunk_bytes (b ∷ bs) ++ r)
      (concat-chunks f (drop chunk_bytes (b ∷ bs))
        (omega (arith, h, length-drop chunk_bytes (b ∷ bs))))
    ∙ take-append-drop chunk_bytes (b ∷ bs)

pub items_of-append :
    (ms ns : List ServerMessage) → items_of (ms ++ ns) ≡ items_of ms ++ items_of ns
items_of-append [] ns = refl
items_of-append (m ∷ ms) ns =
    ap (λ r. item_of m ++ r) (items_of-append ms ns)
    ∙ sym (append_assoc (item_of m) (items_of ms) (items_of ns))

abbrev pub pieces : String → List (List ℕ) → List Item
pieces name [] = piece name [] true ∷ []
pieces name (c ∷ cs) = piece name c false ∷ pieces name cs

pub items_of-chunk_messages :
    (task_id name : String) (cs : List (List ℕ))
    → items_of (chunk_messages task_id name cs) ≡ pieces name cs
items_of-chunk_messages task_id name [] = refl
items_of-chunk_messages task_id name (c ∷ cs) =
    ap (λ r. piece name c false ∷ r) (items_of-chunk_messages task_id name cs)
