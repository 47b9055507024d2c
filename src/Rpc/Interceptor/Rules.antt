-- ===== src/Rpc/Interceptor/Rules.antt =====
-- The rules that adapter/rpc/controller_service_*.go, group_service.go, role_service.go,
-- scheduled_session_operation_service.go and user_service.go register, file by file, and the
-- procedures that permission_interceptor.go knows.
use baru_reso_headless_contr.Prelude.{true, false, List, [], ◌∷◌, ◌++◌, String}
use baru_reso_headless_contr.Rpc.Interceptor.{
  Rule, require_auth_only, public_rpc, require_authenticated, require_system_perm,
  check_host_permission, check_session_permission, check_account_permission, check_group_permission,
  check_start_headless_host, check_create_headless_account, check_start_world,
  check_update_session_parameters, check_update_group_member_role, check_list_roles,
  check_create_role, check_role_mutation,
}

abbrev Registrations : Type 0
Registrations = List (String × Rule)

abbrev pub account_rules : Registrations
account_rules =
    ("/hdlctrl.v1.ControllerService/CreateHeadlessAccount", check_create_headless_account)
    ∷ ("/hdlctrl.v1.ControllerService/ListHeadlessAccounts", require_auth_only)
    ∷ (
      "/hdlctrl.v1.ControllerService/DeleteHeadlessAccount",
      check_account_permission "account:write",
    )
    ∷ (
      "/hdlctrl.v1.ControllerService/UpdateHeadlessAccountCredentials",
      check_account_permission "account:write",
    )
    ∷ (
      "/hdlctrl.v1.ControllerService/GetHeadlessAccountStorageInfo",
      check_account_permission "account:read",
    )
    ∷ (
      "/hdlctrl.v1.ControllerService/RefetchHeadlessAccountInfo",
      check_account_permission "account:write",
    )
    ∷ (
      "/hdlctrl.v1.ControllerService/UpdateHeadlessAccountIcon",
      check_account_permission "account:write",
    )
    ∷ []

abbrev pub cloud_rules : Registrations
cloud_rules =
    ("/hdlctrl.v1.ControllerService/AcceptFriendRequests", check_account_permission "account:use")
    ∷ ("/hdlctrl.v1.ControllerService/GetFriendRequests", check_account_permission "account:use")
    ∷ ("/hdlctrl.v1.ControllerService/SearchUserInfo", check_host_permission "host:use")
    ∷ ("/hdlctrl.v1.ControllerService/FetchWorldInfo", check_host_permission "host:use")
    ∷ ("/hdlctrl.v1.ControllerService/GetResoniteUser", require_auth_only)
    ∷ ("/hdlctrl.v1.ControllerService/GetOwnWorlds", check_host_permission "host:use")
    ∷ ("/hdlctrl.v1.ControllerService/SearchWorlds", require_auth_only)
    ∷ []

abbrev pub contact_rules : Registrations
contact_rules =
    ("/hdlctrl.v1.ControllerService/ListContacts", check_account_permission "account:read")
    ∷ ("/hdlctrl.v1.ControllerService/GetContactMessages", check_account_permission "account:use")
    ∷ ("/hdlctrl.v1.ControllerService/SendContactMessage", check_account_permission "account:use")
    ∷ []

abbrev pub host_rules : Registrations
host_rules =
    ("/hdlctrl.v1.ControllerService/ListHeadlessHostImageTags", require_auth_only)
    ∷ ("/hdlctrl.v1.ControllerService/StartHeadlessHost", check_start_headless_host)
    ∷ ("/hdlctrl.v1.ControllerService/RestartHeadlessHost", check_host_permission "host:write")
    ∷ (
      "/hdlctrl.v1.ControllerService/UpdateHeadlessHostSettings",
      check_host_permission "host:write",
    )
    ∷ ("/hdlctrl.v1.ControllerService/GetHeadlessHostLogs", check_host_permission "host:read")
    ∷ ("/hdlctrl.v1.ControllerService/ListHeadlessHostInstances", check_host_permission "host:read")
    ∷ ("/hdlctrl.v1.ControllerService/ShutdownHeadlessHost", check_host_permission "host:write")
    ∷ ("/hdlctrl.v1.ControllerService/KillHeadlessHost", check_host_permission "host:write")
    ∷ ("/hdlctrl.v1.ControllerService/AllowHostAccess", check_host_permission "host:write")
    ∷ ("/hdlctrl.v1.ControllerService/DenyHostAccess", check_host_permission "host:write")
    ∷ ("/hdlctrl.v1.ControllerService/GetHeadlessHost", check_host_permission "host:read")
    ∷ ("/hdlctrl.v1.ControllerService/ListHeadlessHost", require_auth_only)
    ∷ ("/hdlctrl.v1.ControllerService/DeleteHeadlessHost", check_host_permission "host:write")
    ∷ []

abbrev pub session_rules : Registrations
session_rules =
    ("/hdlctrl.v1.ControllerService/BanUser", check_host_permission "session:write")
    ∷ ("/hdlctrl.v1.ControllerService/KickUser", check_host_permission "session:write")
    ∷ ("/hdlctrl.v1.ControllerService/GetSessionDetails", check_session_permission "session:read")
    ∷ ("/hdlctrl.v1.ControllerService/ListUsersInSession", check_host_permission "session:read")
    ∷ ("/hdlctrl.v1.ControllerService/SaveSessionWorld", check_session_permission "session:write")
    ∷ (
      "/hdlctrl.v1.ControllerService/PrepareSessionWorldDownload",
      check_session_permission "session:read",
    )
    ∷ ("/hdlctrl.v1.ControllerService/UpdateSessionParameters", check_update_session_parameters)
    ∷ ("/hdlctrl.v1.ControllerService/UpdateUserRole", check_host_permission "session:write")
    ∷ ("/hdlctrl.v1.ControllerService/StartWorld", check_start_world)
    ∷ ("/hdlctrl.v1.ControllerService/InviteUser", check_host_permission "session:write")
    ∷ (
      "/hdlctrl.v1.ControllerService/IssueResoniteLinkConnection",
      check_session_permission "session:write",
    )
    ∷ ("/hdlctrl.v1.ControllerService/StopSession", check_session_permission "session:write")
    ∷ ("/hdlctrl.v1.ControllerService/SearchSessions", require_auth_only)
    ∷ ("/hdlctrl.v1.ControllerService/DeleteEndedSession", check_session_permission "session:write")
    ∷ (
      "/hdlctrl.v1.ControllerService/UpdateSessionExtraSettings",
      check_session_permission "session:write",
    )
    ∷ []

abbrev pub group_rules : Registrations
group_rules =
    ("/hdlctrl.v1.GroupService/CreateGroup", require_system_perm "system:group.manage")
    ∷ ("/hdlctrl.v1.GroupService/GetGroup", check_group_permission "group:edit" true)
    ∷ ("/hdlctrl.v1.GroupService/ListGroups", require_auth_only)
    ∷ ("/hdlctrl.v1.GroupService/UpdateGroup", check_group_permission "group:edit" false)
    ∷ ("/hdlctrl.v1.GroupService/DeleteGroup", check_group_permission "group:edit" false)
    ∷ ("/hdlctrl.v1.GroupService/ListGroupMembers", check_group_permission "group:edit" true)
    ∷ (
      "/hdlctrl.v1.GroupService/AddGroupMember",
      check_group_permission "group:members.manage" false,
    )
    ∷ (
      "/hdlctrl.v1.GroupService/RemoveGroupMember",
      check_group_permission "group:members.manage" false,
    )
    ∷ ("/hdlctrl.v1.GroupService/UpdateGroupMemberRole", check_update_group_member_role)
    ∷ []

abbrev pub role_rules : Registrations
role_rules =
    ("/hdlctrl.v1.RoleService/ListRoles", check_list_roles)
    ∷ ("/hdlctrl.v1.RoleService/CreateRole", check_create_role)
    ∷ ("/hdlctrl.v1.RoleService/UpdateRole", check_role_mutation)
    ∷ ("/hdlctrl.v1.RoleService/DeleteRole", check_role_mutation)
    ∷ ("/hdlctrl.v1.RoleService/ListPermissions", require_auth_only)
    ∷ ("/hdlctrl.v1.RoleService/GetMyPermissions", require_auth_only)
    ∷ []

abbrev pub scheduled_rules : Registrations
scheduled_rules =
    ("/hdlctrl.v1.ControllerService/CreateScheduledSessionOperation", require_auth_only)
    ∷ ("/hdlctrl.v1.ControllerService/ListScheduledSessionOperations", require_auth_only)
    ∷ ("/hdlctrl.v1.ControllerService/CancelScheduledSessionOperation", require_auth_only)
    ∷ []

abbrev pub user_rules : Registrations
user_rules =
    ("/hdlctrl.v1.UserService/GetTokenByPassword", public_rpc)
    ∷ ("/hdlctrl.v1.UserService/ValidateRegistrationToken", public_rpc)
    ∷ ("/hdlctrl.v1.UserService/RegisterWithToken", public_rpc)
    ∷ ("/hdlctrl.v1.UserService/RefreshToken", public_rpc)
    ∷ ("/hdlctrl.v1.UserService/ChangePassword", require_authenticated)
    ∷ ("/hdlctrl.v1.UserService/ListUsers", require_authenticated)
    ∷ ("/hdlctrl.v1.UserService/GetUser", require_authenticated)
    ∷ ("/hdlctrl.v1.UserService/CreateRegistrationToken", require_system_perm "system:user.create")
    ∷ ("/hdlctrl.v1.UserService/DeleteUser", require_system_perm "system:user.delete")
    ∷ []

abbrev pub rpc_permission_rules : Registrations
rpc_permission_rules =
    account_rules
    ++ (cloud_rules
        ++ (contact_rules
            ++ (host_rules
                ++ (session_rules
                    ++ (group_rules ++ (role_rules ++ (scheduled_rules ++ user_rules)))))))

abbrev pub all_known_procedures : List String
all_known_procedures =
    "/hdlctrl.v1.ControllerService/ListHeadlessHost"
    ∷ "/hdlctrl.v1.ControllerService/GetHeadlessHost"
    ∷ "/hdlctrl.v1.ControllerService/GetHeadlessHostLogs"
    ∷ "/hdlctrl.v1.ControllerService/ListHeadlessHostInstances"
    ∷ "/hdlctrl.v1.ControllerService/ShutdownHeadlessHost"
    ∷ "/hdlctrl.v1.ControllerService/KillHeadlessHost"
    ∷ "/hdlctrl.v1.ControllerService/UpdateHeadlessHostSettings"
    ∷ "/hdlctrl.v1.ControllerService/RestartHeadlessHost"
    ∷ "/hdlctrl.v1.ControllerService/DeleteHeadlessHost"
    ∷ "/hdlctrl.v1.ControllerService/AllowHostAccess"
    ∷ "/hdlctrl.v1.ControllerService/DenyHostAccess"
    ∷ "/hdlctrl.v1.ControllerService/ListHeadlessHostImageTags"
    ∷ "/hdlctrl.v1.ControllerService/StartHeadlessHost"
    ∷ "/hdlctrl.v1.ControllerService/ListHeadlessAccounts"
    ∷ "/hdlctrl.v1.ControllerService/CreateHeadlessAccount"
    ∷ "/hdlctrl.v1.ControllerService/DeleteHeadlessAccount"
    ∷ "/hdlctrl.v1.ControllerService/UpdateHeadlessAccountCredentials"
    ∷ "/hdlctrl.v1.ControllerService/GetHeadlessAccountStorageInfo"
    ∷ "/hdlctrl.v1.ControllerService/RefetchHeadlessAccountInfo"
    ∷ "/hdlctrl.v1.ControllerService/UpdateHeadlessAccountIcon"
    ∷ "/hdlctrl.v1.ControllerService/FetchWorldInfo"
    ∷ "/hdlctrl.v1.ControllerService/SearchUserInfo" ∷ "/hdlctrl.v1.ControllerService/SearchWorlds"
    ∷ "/hdlctrl.v1.ControllerService/GetOwnWorlds" ∷ "/hdlctrl.v1.ControllerService/GetResoniteUser"
    ∷ "/hdlctrl.v1.ControllerService/GetFriendRequests"
    ∷ "/hdlctrl.v1.ControllerService/AcceptFriendRequests"
    ∷ "/hdlctrl.v1.ControllerService/ListContacts"
    ∷ "/hdlctrl.v1.ControllerService/GetContactMessages"
    ∷ "/hdlctrl.v1.ControllerService/SendContactMessage"
    ∷ "/hdlctrl.v1.ControllerService/SearchSessions"
    ∷ "/hdlctrl.v1.ControllerService/GetSessionDetails" ∷ "/hdlctrl.v1.ControllerService/StartWorld"
    ∷ "/hdlctrl.v1.ControllerService/StopSession"
    ∷ "/hdlctrl.v1.ControllerService/DeleteEndedSession"
    ∷ "/hdlctrl.v1.ControllerService/SaveSessionWorld"
    ∷ "/hdlctrl.v1.ControllerService/PrepareSessionWorldDownload"
    ∷ "/hdlctrl.v1.ControllerService/InviteUser" ∷ "/hdlctrl.v1.ControllerService/UpdateUserRole"
    ∷ "/hdlctrl.v1.ControllerService/UpdateSessionParameters"
    ∷ "/hdlctrl.v1.ControllerService/UpdateSessionExtraSettings"
    ∷ "/hdlctrl.v1.ControllerService/ListUsersInSession" ∷ "/hdlctrl.v1.ControllerService/KickUser"
    ∷ "/hdlctrl.v1.ControllerService/BanUser"
    ∷ "/hdlctrl.v1.ControllerService/IssueResoniteLinkConnection"
    ∷ "/hdlctrl.v1.ControllerService/CreateScheduledSessionOperation"
    ∷ "/hdlctrl.v1.ControllerService/ListScheduledSessionOperations"
    ∷ "/hdlctrl.v1.ControllerService/CancelScheduledSessionOperation"
    ∷ "/hdlctrl.v1.GroupService/CreateGroup" ∷ "/hdlctrl.v1.GroupService/GetGroup"
    ∷ "/hdlctrl.v1.GroupService/ListGroups" ∷ "/hdlctrl.v1.GroupService/UpdateGroup"
    ∷ "/hdlctrl.v1.GroupService/DeleteGroup" ∷ "/hdlctrl.v1.GroupService/ListGroupMembers"
    ∷ "/hdlctrl.v1.GroupService/AddGroupMember" ∷ "/hdlctrl.v1.GroupService/RemoveGroupMember"
    ∷ "/hdlctrl.v1.GroupService/UpdateGroupMemberRole" ∷ "/hdlctrl.v1.RoleService/ListRoles"
    ∷ "/hdlctrl.v1.RoleService/CreateRole" ∷ "/hdlctrl.v1.RoleService/UpdateRole"
    ∷ "/hdlctrl.v1.RoleService/DeleteRole" ∷ "/hdlctrl.v1.RoleService/ListPermissions"
    ∷ "/hdlctrl.v1.RoleService/GetMyPermissions" ∷ "/hdlctrl.v1.UserService/ListUsers"
    ∷ "/hdlctrl.v1.UserService/GetUser" ∷ "/hdlctrl.v1.UserService/CreateRegistrationToken"
    ∷ "/hdlctrl.v1.UserService/DeleteUser" ∷ "/hdlctrl.v1.UserService/GetTokenByPassword"
    ∷ "/hdlctrl.v1.UserService/ValidateRegistrationToken"
    ∷ "/hdlctrl.v1.UserService/RegisterWithToken" ∷ "/hdlctrl.v1.UserService/RefreshToken"
    ∷ "/hdlctrl.v1.UserService/ChangePassword" ∷ []
