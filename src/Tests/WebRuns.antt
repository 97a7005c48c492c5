-- ===== src/Tests/WebRuns.antt =====
-- Runs of src/msks/msks/interceptor/egress.py.
use msks.Prelude.{codes, true, false, not, ◌&&◌, none, some, [], ◌∷◌, ◌≡◌}
use msks.Egress.Policy.{WorkspaceRow, interactive, from_row}
use msks.Interceptor.{App, Flow, get_workspace, decide}
use msks.Interceptor.Closed.{permits, decide-allowed}

abbrev row : WorkspaceRow
row = record {
  id = codes "ws";
  egress_mode = some interactive;
  egress_allowlist = codes "example.com:443" ∷ [];
}

abbrev app : App
app = record {
  workspaces = λ w. some row;
  session = record { allows = []; denies = [] };
  table = [];
  raises = λ call. false;
  answer = λ w key port. some true;
  audit = λ r. none;
  id = codes "r1";
  now = 5000;
}

-- A flow whose address has no name: it is held under the address.
abbrev flow : Flow
flow = record { host = codes "Example.com"; port = 443; address = codes "10.0.0.9"; named = none }

decide-allowed_example :
    (decide app (codes "ws") flow).0.allowed
    ≡ (not (app.raises get_workspace) && permits app flow (from_row (app.workspaces (codes "ws"))))
decide-allowed_example = decide-allowed app (codes "ws") flow
