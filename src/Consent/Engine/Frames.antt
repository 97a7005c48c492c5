-- ===== src/Consent/Engine/Frames.antt =====
-- The rules view of `ConsentEngine` (src/msks/msks/consent/coordinator.py) and the replay of pending
-- requests to a new decider.
use msks.Prelude.{
  ℕ, ◌+◌, Bool, Option, none, some, List, [], ◌∷◌, ◌++◌, map, Text, is_none, not, filter,
}
use msks.Prelude.Dict.{get, text_key}
use msks.Egress.Policy.{WorkspaceRow, mode_or_allow}
use msks.Egress.Lifecycle.{allowed, denied, pending}
use msks.Consent.Rows.{list_active, list_requests}
use msks.Consent.Verdict.{public_row, grouped}
use msks.Consent.Engine.State.{
  ◌>>=◌, ◌>>◌, Frame, request, rules, Engine, Call, get_workspace, active_list, requests_list, M,
  pure, gets, call,
}

-- `frame_for_row`
unfoldable pub frame_for_row : Text → ℕ → WorkspaceRow → Engine → Frame
frame_for_row w now row e =
    let active = list_active w now e.rows in
    rules w (mode_or_allow row.egress_mode) row.egress_allowlist (grouped active allowed)
      (grouped active denied)

module _ (raises : Call → Bool) where
  abbrev pub frame_of : Text → ℕ → Option WorkspaceRow → M (Option Frame)
  frame_of w now none = pure none
  frame_of w now (some row) = do
    call raises active_list
    frame ← gets (frame_for_row w now row)
    pure (some frame)

  unfoldable pub rules_frame : Text → ℕ → M (Option Frame)
  unfolding call
  rules_frame w now = do
    call raises get_workspace
    row ← gets (λ e. get w e.workspaces)
    frame_of w now row

  abbrev pub send : Option (Option Frame) × Engine → Engine
  send (none, e) = e
  send (some none, e) = e
  send (some (some frame), e) = record e { frames = e.frames ++ frame ∷ [] }

  unfoldable pub broadcast_rules : Text → ℕ → Engine → Engine
  unfolding rules_frame
  broadcast_rules w now e = send (rules_frame w now e)

  -- `snapshot`: the frames of the pending rows whose hold is still live
  unfoldable pub snapshot : Text → M (List Frame)
  unfolding call
  snapshot w = do
    call raises requests_list
    gets (λ e.
        map (λ row. request w (public_row row) (row.requested_at + e.timeout))
          (filter (λ row. not (is_none (get row.id e.holds)))
            (list_requests w (some pending) 100 e.rows)))
