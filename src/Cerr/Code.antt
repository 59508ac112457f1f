-- ===== src/Cerr/Code.antt =====
-- The codes of cerr/cerr.go and the two tables that the package starts with. ErrCode is an int32.
use opendevops_codo_golang_s.Common.{List, Bytes, ◌∷◌, [], utf8}
use opendevops_codo_golang_s.Go.Number.{pos, ℤ}

abbrev pub ErrCode : Type 0
ErrCode = ℤ

abbrev pub s_code : ErrCode
s_code = pos 0

abbrev pub e_unknown_code : ErrCode
e_unknown_code = pos 1

abbrev pub e_param_unparsed_code : ErrCode
e_param_unparsed_code = pos 101

abbrev pub e_invalid_param_code : ErrCode
e_invalid_param_code = pos 111

abbrev e_data_exists_code : ErrCode
e_data_exists_code = pos 114

abbrev e_data_not_found_code : ErrCode
e_data_not_found_code = pos 115

abbrev e_no_enough_permission_code : ErrCode
e_no_enough_permission_code = pos 120

abbrev e_un_auth_code : ErrCode
e_un_auth_code = pos 201

-- transMap as it is declared.
unfoldable pub trans_map : List (ErrCode × Bytes)
trans_map =
    (s_code, utf8 "success")
    ∷ (e_unknown_code, utf8 "未知错误!")
    ∷ (e_param_unparsed_code, utf8 "参数解析错误!")
    ∷ (pos 102, utf8 "数据库查询或操作错误!")
    ∷ (pos 103, utf8 "没有任何查看权限!")
    ∷ (pos 104, utf8 "时间范围不能超过24小时!")
    ∷ (pos 105, utf8 "必填参数不能为空!")
    ∷ (pos 106, utf8 "调用api接口失败或没有返回数据!")
    ∷ (pos 107, utf8 "k8s检查异常!")
    ∷ (pos 108, utf8 "API健康检查异常!")
    ∷ (pos 109, utf8 "配置定义错误!")
    ∷ (pos 110, utf8 "已经过了操作时效!")
    ∷ (e_invalid_param_code, utf8 "参数不符合规范!")
    ∷ (pos 112, utf8 "k8s查询或操作异常!")
    ∷ (pos 113, utf8 "cron操作异常!")
    ∷ (e_data_exists_code, utf8 "数据已存在!")
    ∷ (e_data_not_found_code, utf8 "数据不存在!")
    ∷ (pos 116, utf8 "文件读取错误!")
    ∷ (pos 117, utf8 "地址类型和地址格式不匹配!")
    ∷ (pos 118, utf8 "巡检异常!")
    ∷ (pos 119, utf8 "token验证失败!")
    ∷ (e_no_enough_permission_code, utf8 "权限不足!")
    ∷ (pos 121, utf8 "数据格式不正确!")
    ∷ (e_un_auth_code, utf8 "请登陆后再操作!")
    ∷ []

-- httpStatusCodeMap as it is declared, with the numbers of net/http.
unfoldable pub http_status_code_map : List (ErrCode × ℤ)
http_status_code_map =
    (s_code, pos 200)
    ∷ (e_unknown_code, pos 500)
    ∷ (e_param_unparsed_code, pos 400)
    ∷ (e_invalid_param_code, pos 400)
    ∷ (e_data_exists_code, pos 409)
    ∷ (e_data_not_found_code, pos 404)
    ∷ (e_no_enough_permission_code, pos 403)
    ∷ (e_un_auth_code, pos 401)
    ∷ []
