-- ===== src/Events/Tests.antt =====
-- The theorems on events at concrete users and events.
use redseat_rust.Base.{
  ◌≡◌, ◌↔◌, refl, true, false, ◌&&◌, none, some, List, [], ◌∷◌, filter, string_eq, nat_eq,
}
use redseat_rust.Access.Roles.{library_role_ge}
use redseat_rust.Access.Checks.{
  check_library_role, user_id, is_admin, has_library_role, rights_has_role,
}
use redseat_rust.Access.Tests.{ann}
use redseat_rust.Events.{
  SseEvent, movies, library_status, media_progress, library_id, should_send_to, Received, event,
  lagged, closed, passes_filter, handler_sse,
}
use redseat_rust.Events.Routing.{Entitled, should_send_to_iff, until_closed, handler_sse-eq-filter}

abbrev new_film : SseEvent
new_film = movies (record { library = "films" })

abbrev received : List Received
received =
    event (library_status (record { library = "films" }))
    ∷ lagged
    ∷ event new_film
    ∷ closed
    ∷ event new_film
    ∷ []

delivered : handler_sse ann (some ("films" ∷ [])) (λ _. true) received ≡ new_film ∷ []
unfolding handler_sse should_send_to check_library_role is_admin has_library_role rights_has_role
    library_role_ge
delivered = refl

progress_of_bob :
    should_send_to (media_progress (record { library = "films"; user_ref = "bob" })) ann ≡ false
unfolding should_send_to user_id
progress_of_bob = refl

should_send_to_iff_example : (should_send_to new_film ann ≡ true) ↔ Entitled new_film ann
should_send_to_iff_example = should_send_to_iff new_film ann

handler_sse-eq-filter_example :
    handler_sse ann none (λ _. true) received
    ≡ filter
        (λ e. should_send_to e ann && (passes_filter none (library_id e) && true))
        (until_closed received)
handler_sse-eq-filter_example = handler_sse-eq-filter ann none (λ _. true) received
