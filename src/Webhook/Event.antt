-- ===== src/Webhook/Event.antt =====
-- pkg/webhook/event.go and content_type.go. An event is a number, and so is a content type.
use soft_serve.Base.{ℕ, Option, none, some, List, [], ◌∷◌, Text, str, text_eq, ◌==◌, if◌then◌else◌}

abbrev pub Event : Type 0
Event = ℕ

-- Events
abbrev pub all_events : List Event
all_events = 1 ∷ 2 ∷ 3 ∷ 4 ∷ 5 ∷ 6 ∷ []

-- Event.String, empty for other numbers
unfoldable pub event_string : Event → Text
event_string e =
    if e == 1
    then str "branch_tag_create"
    else if e == 2
    then str "branch_tag_delete"
    else if e == 3
    then str "collaborator"
    else if e == 4
    then str "push"
    else if e == 5
    then str "repository"
    else if e == 6
    then str "repository_visibility_change"
    else []

-- the lookup of a name among events
unfoldable pub event_among : List Event → Text → Option Event
unfolding text_eq event_string
event_among [] s = none
event_among (e ∷ es) s =
    let rest = event_among es s in if text_eq s (event_string e) then some e else rest

-- ParseEvent
unfoldable pub parse_event : Text → Option Event
unfolding event_among
parse_event s = event_among all_events s

abbrev pub content_type_json : ℕ
content_type_json = 0

abbrev pub content_type_form : ℕ
content_type_form = 1
