-- ===== src/Transfer/Arrival.antt =====
-- The input that the hub sends, src/looma/orchestrator/agents.py, arrives at the node as it was,
-- agent/looma_agent/control/tasks.py.
use mathlib.Core.List.{append-nil, append_assoc}
use looma.Base.{
  ◌>>=◌, Bool, leb, ok, string_eq, nat_eq, length, length-append, ℕ, suc, String, ◌≡◌, refl, sym,
  ap, ◌∙◌, true, false, Option, none, some, List, [], ◌∷◌, ◌++◌, arith,
}
use looma.Base.Dict.{
  lookup-append_NodupKeys, insert-append, Entries, NodupKeys, insert, erase, lookup, Dict,
}
use looma.Hub.Tasks.{describe_all, input_messages, chunks, chunk_messages}
use looma.Transfer.{
  stay_apart, paths_of, wanted_from, safe_target, nothing_yet, receive_all, check_names,
  wanted_from, receive_loop, Declared, IncomingFile, write, finish, Item, piece, Arriving, or_begin,
  file_away, take_piece, take_item,
}
use looma.Transfer.Pieces.{
  items_of, declared_all, concat, concat-chunks, items_of-append, pieces, items_of-chunk_messages,
}

module _ (digest : List ℕ → String) where
  abbrev declare : String → List ℕ → Declared
  declare name bytes = record { name = name; size_bytes = length bytes; digest = digest bytes }

  abbrev opened : String → Option IncomingFile → Dict String IncomingFile
  opened name none = []
  opened name (some f) = (name, f) ∷ []

  abbrev partial : String → List ℕ → List ℕ → IncomingFile
  partial name bytes pre = record {
    expected_bytes = length bytes;
    expected_digest = digest bytes;
    received = pre;
  }

  write_fits :
      (name : String) (bytes pre chunk rest : List ℕ)
      → (pre ++ chunk) ++ rest ≡ bytes
      → write chunk (partial name bytes pre) ≡ ok (partial name bytes (pre ++ chunk))
  unfolding write
  write_fits name bytes pre chunk rest e =
      ground (arith, ap length e, length-append (pre ++ chunk) rest)

  finish_whole :
      (name : String) (bytes : List ℕ) → finish digest (partial name bytes bytes) ≡ ok bytes
  unfolding finish
  finish_whole name bytes = ground arith

  module _ (wanted : Dict String Declared) (name : String) (bytes : List ℕ)
      (at : lookup name wanted ≡ some (declare name bytes)) where
    or_begin-opened :
        (o : Option IncomingFile)
        → or_begin (declare name bytes) (lookup name (opened name o))
          ≡ or_begin (declare name bytes) o
    unfolding lookup
    or_begin-opened none = refl
    or_begin-opened (some f) = ground arith

    insert-opened :
        (f : IncomingFile) (o : Option IncomingFile)
        → insert name f (opened name o) ≡ opened name (some f)
    unfolding insert
    insert-opened f none = refl
    insert-opened f (some g) = ground arith

    erase-opened : (o : Option IncomingFile) → erase name (opened name o) ≡ []
    unfolding erase
    erase-opened none = refl
    erase-opened (some g) = ground arith

    abbrev state : Option IncomingFile → Dict String (List ℕ) → Arriving
    state o done = record { open_files = opened name o; done = done }

    -- A piece that is not the last is put behind what has arrived.
    take_more :
        (o : Option IncomingFile) (pre chunk rest : List ℕ) (done : Dict String (List ℕ))
        → or_begin (declare name bytes) o ≡ partial name bytes pre
        → (pre ++ chunk) ++ rest ≡ bytes
        → take_item digest wanted (piece name chunk false) (state o done)
          ≡ ok (state (some (partial name bytes (pre ++ chunk))) done)
    unfolding take_item take_piece file_away
    take_more o pre chunk rest done so_far whole =
        rw (at, take_item)
          (rw (or_begin-opened o ∙ so_far) (
            rw (write_fits name bytes pre chunk rest whole)
              (rw (insert-opened (partial name bytes (pre ++ chunk)) o) refl)))

    take_last :
        (o : Option IncomingFile) (done : Dict String (List ℕ))
        → or_begin (declare name bytes) o ≡ partial name bytes bytes
        → take_item digest wanted (piece name [] true) (state o done)
          ≡ ok (record { open_files = []; done = insert name bytes done })
    unfolding take_item take_piece file_away
    take_last o done so_far =
        rw (at, take_item)
          (rw (or_begin-opened o ∙ so_far) (
            rw (write_fits name bytes bytes [] [] (append-nil _ ∙ append-nil bytes))
              (rw (append-nil bytes) (rw (finish_whole name bytes) (rw (erase-opened o) refl)))))

    -- One file arrives whole, and the loop goes on with what comes behind it.
    receive_file :
        (cs : List (List ℕ)) (o : Option IncomingFile) (pre : List ℕ) (done : Dict String (List ℕ))
        (items : List Item)
        → or_begin (declare name bytes) o ≡ partial name bytes pre
        → pre ++ concat cs ≡ bytes
        → leb (length wanted) (length done) ≡ false
        → receive_loop digest wanted (pieces name cs ++ items) (state o done)
          ≡ receive_loop digest wanted items
              (record { open_files = []; done = insert name bytes done })
    unfolding receive_loop
    receive_file [] o pre done items so_far whole more =
        let full : pre ≡ bytes = sym (append-nil pre) ∙ whole in
        rw (more, receive_loop) (rw (take_last o done (so_far ∙ ap (partial name bytes) full)) refl)
    receive_file (c ∷ cs) o pre done items so_far whole more =
        let whole' = append_assoc pre c (concat cs) ∙ whole in
        rw (more, receive_loop)
          (rw (take_more o pre c (concat cs) done so_far whole') (
            receive_file cs (some (partial name bytes (pre ++ c))) (pre ++ c) done items refl whole'
              more))

  abbrev declared_dict : Dict String (List ℕ) → Dict String Declared
  declared_dict [] = []
  declared_dict ((name, bytes) ∷ inputs) = (name, declare name bytes) ∷ declared_dict inputs

  lookup-declared_dict :
      (j : String) (inputs : Dict String (List ℕ))
      → lookup j inputs ≡ none
      → lookup j (declared_dict inputs) ≡ none
  unfolding lookup
  lookup-declared_dict j [] e = refl
  lookup-declared_dict j ((name, bytes) ∷ inputs) e =
      ground (arith, e, lookup-declared_dict j inputs)

  insert-declared_dict :
      (name : String) (bytes : List ℕ) (done : Dict String (List ℕ))
      → lookup name done ≡ none
      → insert name (declare name bytes) (declared_dict done)
        ≡ declared_dict (insert name bytes done)
  unfolding insert lookup
  insert-declared_dict name bytes [] new = refl
  insert-declared_dict name bytes ((j, b) ∷ done) new =
      ground (arith, new, insert-declared_dict name bytes done)

  wanted_from-declared :
      (done rest : Dict String (List ℕ))
      → NodupKeys (done ++ rest)
      → wanted_from (declared_dict done) (declared_all (describe_all digest rest))
        ≡ declared_dict (done ++ rest)
  wanted_from-declared done [] u = ap declared_dict (sym (append-nil done))
  wanted_from-declared done ((name, bytes) ∷ rest) u =
      let (same, v) = insert-append name bytes done rest u in
      ap (λ w. wanted_from w (declared_all (describe_all digest rest)))
        (insert-declared_dict name bytes done (lookup-append_NodupKeys name bytes done rest u))
      ∙ wanted_from-declared (insert name bytes done) rest v
      ∙ ap declared_dict same

  -- The inputs one after another.
  receive_inputs :
      (task_id : String) (wanted : Dict String Declared) (done rest : Dict String (List ℕ))
      → NodupKeys (done ++ rest)
      → length wanted ≡ length (done ++ rest)
      → Entries (λ name bytes. lookup name wanted ≡ some (declare name bytes)) rest
      → receive_loop digest wanted
          (items_of (input_messages task_id rest))
          (record { open_files = []; done = done })
        ≡ ok (done ++ rest)
  unfolding input_messages receive_loop
  receive_inputs task_id wanted done [] u n at =
      let enough : leb (length wanted) (length done) ≡ true =
        ground (arith, n, length-append done []) in
      rw (enough, receive_loop) (ap ok (sym (append-nil done)))
  receive_inputs task_id wanted done ((name, bytes) ∷ rest) u n (here, at) =
      let (same, v) = insert-append name bytes done rest u in
      let cs = chunks (length bytes) bytes in
      let more : leb (length wanted) (length done) ≡ false =
        ground (arith, n, length-append done ((name, bytes) ∷ rest)) in
      ap (λ is. receive_loop digest wanted is (record { open_files = []; done = done }))
        (items_of-append (chunk_messages task_id name cs) (input_messages task_id rest)
          ∙ ap (λ is. is ++ items_of (input_messages task_id rest))
              (items_of-chunk_messages task_id name cs))
      ∙ receive_file wanted name bytes here cs none [] done (items_of (input_messages task_id rest))
          refl (concat-chunks (length bytes) bytes (omega arith)) more
      ∙ receive_inputs task_id wanted (insert name bytes done) rest v (n ∙ ap length (sym same)) at
      ∙ ap ok same

  -- Behind a new name, the rest is found as before.
  declared_later :
      (j : String) (b : List ℕ) (all rest : Dict String (List ℕ))
      → lookup j rest ≡ none
      → Entries (λ name bytes. lookup name (declared_dict all) ≡ some (declare name bytes)) rest
      → Entries
          (λ name bytes. lookup name (declared_dict ((j, b) ∷ all)) ≡ some (declare name bytes))
          rest
  unfolding lookup
  declared_later j b all [] new h = tt
  declared_later j b all ((name, bytes) ∷ rest) new h =
      (ground (arith, new, h.0), declared_later j b all rest (ground (arith, new)) h.1)

  declared_here :
      (inputs : Dict String (List ℕ))
      → NodupKeys inputs
      → Entries
          (λ name bytes. lookup name (declared_dict inputs) ≡ some (declare name bytes))
          inputs
  unfolding lookup
  declared_here [] u = tt
  declared_here ((name, bytes) ∷ inputs) (new, u) =
      (ground arith, declared_later name bytes inputs inputs new (declared_here inputs u))

  length-declared_dict : (d : Dict String (List ℕ)) → length (declared_dict d) ≡ length d
  length-declared_dict [] = refl
  length-declared_dict (_ ∷ d) = ap suc (length-declared_dict d)

  -- The names of the inputs are accepted.
  abbrev pub AreSafe : (List String → Bool) → Dict String (List ℕ) → Type 0
  AreSafe inside =
      Entries (λ name bytes. (parts : List String) × (safe_target inside name ≡ ok parts))

  check_names_safe :
      (inside : List String → Bool) (inputs : Dict String (List ℕ))
      → AreSafe inside inputs
      → check_names inside (declared_all (describe_all digest inputs)) ≡ ok tt
  unfolding check_names
  check_names_safe inside [] h = refl
  check_names_safe inside ((name, bytes) ∷ inputs) ((parts, safe), h) =
      rw (safe, ◌>>=◌) (check_names_safe inside inputs h)

  -- The files that the hub sends with a task, cut into chunks and declared by size and digest, are
  -- what the task finds at the node: all of them, each as it was. Their names differ, the node accepts
  -- them, and on its disk no input, nor its partial file, is or lies below the file of another.
  pub receive_all-input_messages :
      (inside : List String → Bool) (task_id : String) (inputs : Dict String (List ℕ))
      → NodupKeys inputs
      → AreSafe inside inputs
      → stay_apart (paths_of (wanted_from [] (declared_all (describe_all digest inputs)))) ≡ true
      → receive_all digest inside
          (declared_all (describe_all digest inputs))
          (items_of (input_messages task_id inputs))
        ≡ some (ok inputs)
  unfolding receive_all
  receive_all-input_messages inside task_id inputs u safe apart =
      let wanted = wanted_from-declared [] inputs u in
      rw (check_names_safe inside inputs safe, apart, receive_all)
        (ap some (
          ap (λ w. receive_loop digest w (items_of (input_messages task_id inputs)) nothing_yet)
            wanted
          ∙ receive_inputs task_id (declared_dict inputs) [] inputs u (length-declared_dict inputs)
              (declared_here inputs u)))
